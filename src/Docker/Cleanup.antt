-- ===== src/Docker/Cleanup.antt =====
-- docker_executor.go: cleanupDocker. It asks for the removal of each resource, whatever fails.
use robine_ci.Prelude.{
  ◌≡◌, refl, sym, ap, ◌∙◌, Bool, false, not, ◌||◌, Option, none, some, List, [], ◌∷◌, ◌++◌,
  append-nil, append_assoc, if◌then◌else◌,
}
use robine_ci.Prelude.Bytes.{Bytes, codes}
use robine_ci.Offer.{is_empty}
use robine_ci.Run.{Run, pure, ◌>>=◌}
use robine_ci.Executor.{Env, State, Context}
use robine_ci.Docker.{Resources, Failure, message}
use robine_ci.Docker.Calls.{docker_run, docker_command, docker_missing}

-- The commands that remove a container, a volume and a network.
abbrev pub remove_container : Bytes → List Bytes
remove_container name = codes "rm" ∷ codes "--force" ∷ codes "--volumes" ∷ name ∷ []

abbrev pub remove_volume : Bytes → List Bytes
remove_volume name = codes "volume" ∷ codes "rm" ∷ codes "--force" ∷ name ∷ []

abbrev pub remove_network : Bytes → List Bytes
remove_network name = codes "network" ∷ codes "rm" ∷ name ∷ []

-- Whether the removal failed for another reason than that there is no such resource.
unfoldable pub is_left : Option Failure → Bool
unfolding docker_missing
is_left none = false
is_left (some failure) = not (docker_missing failure)

-- The command that removes a resource, if it has a name.
abbrev pub removal : (Bytes → List Bytes) → Bytes → List (List Bytes)
removal command name = if is_empty name then [] else command name ∷ []

abbrev pub removals : List Bytes → List (List Bytes)
removals [] = []
removals (name ∷ names) = removal remove_container name ++ removals names

module _ {env : Env} (ctx : Context) where
  -- The removal of a resource that has a name; the result is whether it is left.
  unfoldable pub remove : (Bytes → List Bytes) → Bytes → Run (State env) Bool
  unfolding is_left
  remove command name =
      if is_empty name
      then pure false
      else (do failed ← docker_run ctx (command name); pure (is_left failed))

  unfoldable pub remove_containers : List Bytes → Run (State env) Bool
  unfolding remove
  remove_containers [] = pure false
  remove_containers (name ∷ names) = do
    failed ← remove remove_container name
    later ← remove_containers names
    pure (failed || later)

  -- The error, or none. The code keeps a list of what failed, of which it reads the length only.
  unfoldable pub cleanup : Resources → Run (State env) (Option Failure)
  unfolding remove_containers remove
  cleanup resources = do
    containers ← remove_containers (resources.container ∷ resources.services)
    volume ← remove remove_volume resources.volume
    network ← remove remove_network resources.network
    pure (
        if containers || volume || network
        then some (message (codes "Docker cleanup incomplete"))
        else none)

  remove-removal :
      (command : Bytes → List Bytes) (name : Bytes) (s : State env)
      → (remove command name s).1.commands ≡ s.commands ++ removal command name
  unfolding remove docker_run docker_command ◌>>=◌ pure
  remove-removal command [] s = sym (append-nil s.commands)
  remove-removal command (c ∷ name) s = refl

  remove_containers-removals :
      (names : List Bytes) (s : State env)
      → (remove_containers names s).1.commands ≡ s.commands ++ removals names
  unfolding remove_containers ◌>>=◌ pure
  remove_containers-removals [] s = sym (append-nil s.commands)
  remove_containers-removals (name ∷ names) s =
      remove_containers-removals names (remove remove_container name s).1
      ∙ ap (λ l. l ++ removals names) (remove-removal remove_container name s)
      ∙ append_assoc s.commands (removal remove_container name) (removals names)

  -- Whatever fails on the way, the cleanup of a job sends the engine one removal of each container of
  -- the job and of its services, then one of its volume and then one of its network, as far as they
  -- have names, and no other command.
  pub cleanup-commands :
      (resources : Resources) (s : State env)
      → (cleanup resources s).1.commands
        ≡ s.commands
          ++ removals (resources.container ∷ resources.services)
          ++ removal remove_volume resources.volume
          ++ removal remove_network resources.network
  unfolding cleanup ◌>>=◌ pure
  cleanup-commands resources s =
      let names = resources.container ∷ resources.services in
      let s1 = (remove_containers names s).1 in
      let s2 = (remove remove_volume resources.volume s1).1 in
      remove-removal remove_network resources.network s2
      ∙ ap (λ l. l ++ removal remove_network resources.network)
          (remove-removal remove_volume resources.volume s1
            ∙ ap (λ l. l ++ removal remove_volume resources.volume)
                (remove_containers-removals names s))
