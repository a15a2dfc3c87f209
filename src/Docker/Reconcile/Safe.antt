-- ===== src/Docker/Reconcile/Safe.antt =====
-- reconcileDocker of docker_executor.go: what it asks of the engine.
use robine_ci.Prelude.{
  ◌≡◌, refl, sym, ap, ◌∙◌, Bool, true, false, Option, none, some, List, [], ◌∷◌, ◌++◌, append-nil,
  append_assoc, Bool-cases, if◌then◌else◌, inl, inr, In, All, All-append,
}
use robine_ci.Prelude.Bytes.{Bytes}
use robine_ci.Run.{Run, pure, ◌>>=◌}
use robine_ci.Executor.{Env, State, Context, WaitError}
use robine_ci.Docker.{Failure}
use robine_ci.Docker.Arguments.{mem}
use robine_ci.Docker.Calls.{docker_run, docker_command, answer_of}
use robine_ci.Docker.Cleanup.{is_left}
use robine_ci.Docker.Reconcile.{
  Kind, Line, resource, blank, malformed, list_command, remove_command, read_line, lines_of,
  after_removal, take_line, reconcile_lines, listed, reconcile_kinds, reconcile,
}

-- The removal of a resource that stands in a line of a listing, of an attempt that is not active.
pub record IsDoomed (active : List Bytes) (kind : Kind) (lines : List Bytes) (command : List Bytes)
    : Type 0 where
  pub name : Bytes
  pub attempt : Bytes
  pub line : Bytes
  pub stands : In line lines
  pub reads : read_line line ≡ resource name attempt
  pub over : mem attempt active ≡ false
  pub is : command ≡ remove_command kind name

module _ (env : Env) (ctx : Context) (active : List Bytes) where
  -- What reconciling may ask of the engine: the listings, and removals of what one of them has shown.
  pub data Permitted (namespace : Bytes) (command : List Bytes) : Type 0 where
    listing : (kind : Kind) → command ≡ list_command namespace kind → Permitted namespace command
    removal :
        (kind : Kind) (w : env.World) (output : Bytes)
        → (env.combined_output ctx (list_command namespace kind) w).0 ≡ (none, output)
        → IsDoomed active kind (lines_of output) command
        → Permitted namespace command

module _ {env : Env} (ctx : Context) (active : List Bytes) where
  -- The commands that an action sends all have `P`.
  pub record Asks {A : Type 0} (P : List Bytes → Type 0) (action : Run (State env) A) : Type 0 where
    pub at :
        (s : State env)
        → (cs : List (List Bytes)) × ((action s).1.commands ≡ s.commands ++ cs) × All P cs

  module _ {P : List Bytes → Type 0} where
    Asks-pure : {A : Type 0} (a : A) → Asks P (pure a)
    unfolding pure
    Asks-pure a = record { at = λ s. ([], sym (append-nil s.commands), tt) }

    Asks-bind :
        {A B : Type 0} (m : Run (State env) A) (f : A → Run (State env) B)
        → Asks P m
        → ((a : A) → Asks P (f a))
        → Asks P (m >>= f)
    unfolding ◌>>=◌
    Asks-bind m f asked later = record {
      at = λ s.
          let (cs, first, all) = asked.at s in
          let (ds, second, rest) = (later (m s).0).at (m s).1 in
          (
            cs ++ ds,
            second ∙ ap (λ l. l ++ ds) first ∙ append_assoc s.commands cs ds,
            All-append P cs ds all rest,
          );
    }

    Asks-if :
        {A : Type 0} (b : Bool) (m n : Run (State env) A)
        → Asks P m
        → Asks P n
        → Asks P (if b then m else n)
    Asks-if true m n am an = am
    Asks-if false m n am an = an

    Asks-run : (command : List Bytes) → P command → Asks P (docker_run {env = env} ctx command)
    unfolding docker_run docker_command ◌>>=◌ pure
    Asks-run command p = record { at = λ s. (command ∷ [], refl, (p, tt)) }

    after_removal-Asks :
        (rest : Run (State env) (Option Failure)) (failed : Option Failure)
        → Asks P rest
        → Asks P (after_removal {env = env} ctx active rest failed)
    unfolding after_removal
    after_removal-Asks rest none asked = asked
    after_removal-Asks rest (some failure) asked =
        Asks-if (is_left (some failure)) _ _ (Asks-pure _) asked

    take_line-Asks :
        (kind : Kind) (rest : Run (State env) (Option Failure)) (read : Line)
        → Asks P rest
        → ((name attempt : Bytes)
            → read ≡ resource name attempt
            → mem attempt active ≡ false
            → P (remove_command kind name))
        → Asks P (take_line ctx active kind rest read)
    unfolding take_line
    take_line-Asks kind rest blank asked doomed = asked
    take_line-Asks kind rest malformed asked doomed = Asks-pure _
    take_line-Asks kind rest (resource name attempt) asked doomed =
        elim (Bool-cases (mem attempt active)) [
          | inl e ↦ rw e asked
          | inr e ↦ rw e (
              Asks-bind _ _ (Asks-run _ (doomed name attempt refl e))
                (λ failed. after_removal-Asks rest failed asked))
        ]

    reconcile_lines-Asks :
        (kind : Kind) (lines : List Bytes)
        → ((command : List Bytes) → IsDoomed active kind lines command → P command)
        → Asks P (reconcile_lines {env = env} ctx active kind lines)
    unfolding reconcile_lines
    reconcile_lines-Asks kind [] doomed = Asks-pure _
    reconcile_lines-Asks kind (line ∷ lines) doomed =
        take_line-Asks kind _ (read_line line)
          (reconcile_lines-Asks kind lines (λ command d. doomed command (record {
            name = d.name;
            attempt = d.attempt;
            line = d.line;
            stands = inr d.stands;
            reads = d.reads;
            over = d.over;
            is = d.is;
          })))
          (λ name attempt reads over. doomed _ (record {
            name = name;
            attempt = attempt;
            line = line;
            stands = inl refl;
            reads = reads;
            over = over;
            is = refl;
          }))

  module _ (namespace : Bytes) where
    listed-Asks :
        (kind : Kind) (w : env.World) (waited : Option WaitError) (output : Bytes)
        → (env.combined_output ctx (list_command namespace kind) w).0 ≡ (waited, output)
        → Asks
            (Permitted env ctx active namespace)
            (listed {env = env} ctx active kind (answer_of waited output))
    unfolding listed
    listed-Asks kind w none output e =
        reconcile_lines-Asks kind (lines_of output) (λ command d. removal kind w output e d)
    listed-Asks kind w (some error) output e = Asks-pure _

    kind-Asks :
        (kind : Kind) (f : Option Failure → Run (State env) (Option Failure))
        → ((failed : Option Failure) → Asks (Permitted env ctx active namespace) (f failed))
        → Asks (Permitted env ctx active namespace) (
            docker_command ctx (list_command namespace kind) >>= λ answer.
            listed ctx active kind answer >>= f)
    unfolding docker_command ◌>>=◌
    kind-Asks kind f later = record {
      at = λ s.
          let ((waited, output), world) =
            env.combined_output ctx (list_command namespace kind) s.world in
          let (cs, same, all) =
            (Asks-bind (listed ctx active kind (answer_of waited output)) f
                (listed-Asks kind s.world waited output refl) later).at
              (record s {
                world = world;
                commands = s.commands ++ list_command namespace kind ∷ [];
              }) in
          (
            list_command namespace kind ∷ cs,
            same ∙ append_assoc s.commands _ cs,
            (listing kind refl, all),
          );
    }

    reconcile_kinds-Asks :
        (kinds : List Kind)
        → Asks
            (Permitted env ctx active namespace)
            (reconcile_kinds {env = env} ctx active namespace kinds)
    unfolding reconcile_kinds
    reconcile_kinds-Asks [] = Asks-pure _
    reconcile_kinds-Asks (kind ∷ kinds) = kind-Asks kind _ (λ failed.
        elim failed
          as (λ r. Asks {A = Option Failure} (Permitted env ctx active namespace) (elim r [
            | some failure ↦ pure (some failure)
            | none ↦ reconcile_kinds ctx active namespace kinds
          ])) [ some failure ↦ Asks-pure (some failure) | none ↦ reconcile_kinds-Asks kinds ])

    -- Reconciling sends the engine nothing but the three listings of resources with the runner's labels,
    -- and removals of resources that a line of such a listing names together with an attempt that is not
    -- active: what belongs to an active attempt stays.
    pub reconcile-Permitted :
        (s : State env)
        → (cs : List (List Bytes)) × ((reconcile ctx active namespace s).1.commands
            ≡ s.commands ++ cs)
          × All (Permitted env ctx active namespace) cs
    unfolding reconcile
    reconcile-Permitted s =
        (reconcile_kinds-Asks (Kind.containers ∷ Kind.volumes ∷ Kind.networks ∷ [])).at s
