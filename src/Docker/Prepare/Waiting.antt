-- ===== src/Docker/Prepare/Waiting.antt =====
-- awaitDockerService of docker_executor.go: the loop ends by its deadline, as each round waits.
use robine_ci.Prelude.{
  ℕ, zero, suc, ◌+◌, ◌≤◌, ◌≡◌, refl, Bool, true, false, Option, none, some, List, ltb, arith, inl,
  inr, Bool-cases,
}
use robine_ci.Prelude.Bytes.{Bytes}
use robine_ci.Run.{Run, pure, ◌>>=◌}
use robine_ci.Executor.{Env, State, Context, ContextError, execution, outside}
use robine_ci.Docker.{Service, Readiness, Failure}
use robine_ci.Docker.Calls.{docker_run, docker_command, container_running}
use robine_ci.Docker.Prepare.{
  readiness_timeout, await_service, await_rounds, before_deadline, after_context, probe,
  after_probe, after_timer, after_running,
}

-- Time in milliseconds that time.Now reads, that no call turns back, and that a timer waits for.
pub record Clock (env : Env) : Type 0 where
  pub time : env.World → ℕ
  pub reads : (w : env.World) → (env.now_ms w).0 ≡ time w
  pub now_later : (w : env.World) → time w ≤ time (env.now_ms w).1
  pub context_later : (ctx : Context) (w : env.World) → time w ≤ time (env.context_error ctx w).1
  pub command_later :
      (ctx : Context) (arguments : List Bytes) (w : env.World)
      → time w ≤ time (env.combined_output ctx arguments w).1
  pub waits :
      (ctx : Context) (n : ℕ) (w : env.World)
      → (env.wait_timer ctx n w).0 ≡ false
      → time w + n ≤ time (env.wait_timer ctx n w).1

module _ {env : Env} (clock : Clock env) where
  open clock use {time, reads, now_later, context_later, command_later, waits}

  -- From a time on, two actions do the same.
  record Agree {A : Type 0} (from : ℕ) (m n : Run (State env) A) : Type 0 where
    at : (s : State env) → from ≤ time s.world → m s ≡ n s

  Agree-outside :
      {A B : Type 0} (from : ℕ) (call : env.World → A × env.World) (f g : A → Run (State env) B)
      → ((w : env.World) → time w ≤ time (call w).1)
      → ((a : A) → Agree from (f a) (g a))
      → Agree from (outside call >>= f) (outside call >>= g)
  unfolding outside ◌>>=◌
  Agree-outside from call f g later same = record {
    at = λ s h. (same (call s.world).0).at _ (step s.world (later s.world) h);
  }
    where
      step : {t : ℕ} (w : env.World) → time w ≤ t → from ≤ time w → from ≤ t
      step w p q = omega (arith, p, q)

  Agree-command :
      {B : Type 0} (from : ℕ) (ctx : Context) (arguments : List Bytes)
      (f g : Option Failure → Run (State env) B)
      → ((a : Option Failure) → Agree from (f a) (g a))
      → Agree from (docker_run ctx arguments >>= f) (docker_run ctx arguments >>= g)
  unfolding docker_run docker_command ◌>>=◌ pure
  Agree-command from ctx arguments f g same = record {
    at = λ s h. (same _).at _ (omega (arith, h, command_later ctx arguments s.world));
  }

  Agree-running :
      {B : Type 0} (from : ℕ) (ctx : Context) (name : Bytes) (f g : Bool → Run (State env) B)
      → ((a : Bool) → Agree from (f a) (g a))
      → Agree from (container_running ctx name >>= f) (container_running ctx name >>= g)
  unfolding container_running docker_command ◌>>=◌ pure
  Agree-running from ctx name f g same = record {
    at = λ s h. (same _).at _ (omega (arith, h, command_later ctx _ s.world));
  }

  module _ (service : Service) (name network : Bytes) (deadline from : ℕ)
      (m n : Run (State env) (Option Failure)) (later : Agree (from + 100) m n) where
    after_timer-Agree :
        (b : Bool) (s : State env)
        → (b ≡ false → from + 100 ≤ time s.world)
        → after_timer service name network deadline m b s
          ≡ after_timer service name network deadline n b s
    unfolding after_timer
    after_timer-Agree true s h = refl
    after_timer-Agree false s h = later.at s (h refl)

    after_probe-Agree :
        (failed : Option Failure)
        → Agree from
            (after_probe service name network deadline m failed)
            (after_probe service name network deadline n failed)
    unfolding after_probe outside ◌>>=◌ pure
    after_probe-Agree none = record { at = λ s h. refl }
    after_probe-Agree (some failure) = record {
      at = λ s h. after_timer-Agree _ _ (λ e. omega (arith, h, waits execution 100 s.world e));
    }

    probe-Agree :
        (r : Option Readiness)
        → Agree from
            (probe service name network deadline m r)
            (probe service name network deadline n r)
    unfolding probe
    probe-Agree none = record { at = λ s h. refl }
    probe-Agree (some r) = Agree-command from _ _ _ _ after_probe-Agree

    after_running-Agree :
        (b : Bool)
        → Agree from
            (after_running service name network deadline m b)
            (after_running service name network deadline n b)
    unfolding after_running
    after_running-Agree true = probe-Agree service.readiness
    after_running-Agree false = record { at = λ s h. refl }

    after_context-Agree :
        (e : Option ContextError)
        → Agree from
            (after_context service name network deadline m e)
            (after_context service name network deadline n e)
    unfolding after_context
    after_context-Agree (some e) = record { at = λ s h. refl }
    after_context-Agree none = Agree-running from execution name _ _ after_running-Agree

    before_deadline-Agree :
        (now : ℕ)
        → Agree from
            (before_deadline service name network deadline m now)
            (before_deadline service name network deadline n now)
    unfolding before_deadline
    before_deadline-Agree now = elim (Bool-cases (ltb now deadline)) [
      | inl e ↦ rw e (
          Agree-outside from (env.context_error execution) _ _ (context_later execution)
            after_context-Agree)
      | inr e ↦ rw e (record { at = λ s h. refl })
    ]

  passed-Agree :
      (service : Service) (name network : Bytes) (deadline from : ℕ)
      (m n : Run (State env) (Option Failure))
      → deadline ≤ from
      → Agree from
          (outside env.now_ms >>= before_deadline service name network deadline m)
          (outside env.now_ms >>= before_deadline service name network deadline n)
  unfolding before_deadline outside ◌>>=◌
  passed-Agree service name network deadline from m n h = record {
    at = λ s k.
        let late : ltb (env.now_ms s.world).0 deadline ≡ false =
          ground (arith, h, k, reads s.world) in
        rw late refl;
  }

  rounds-Agree :
      (service : Service) (name network : Bytes) (deadline fuel allowed from : ℕ)
      → fuel ≤ allowed
      → deadline ≤ from + fuel
      → Agree from
          (await_rounds {env = env} service name network deadline (suc fuel))
          (await_rounds service name network deadline (suc allowed))
  unfolding await_rounds
  rounds-Agree service name network deadline zero allowed from enough h =
      passed-Agree service name network deadline from _ _ (omega (arith, h))
  rounds-Agree service name network deadline (suc fuel) zero from enough h =
      absurd (omega (arith, enough))
  rounds-Agree service name network deadline (suc fuel) (suc allowed) from enough h =
      Agree-outside from env.now_ms _ _ now_later (λ now.
        before_deadline-Agree service name network deadline from _ _
          (rounds-Agree service name network deadline fuel allowed (from + 100)
            (omega (arith, enough)) (omega (arith, h)))
          now)

  -- With a clock that goes on, the rounds that the model allows the wait for a service are enough: as
  -- many as its time limit has milliseconds, and one. Allowed any larger number of rounds it does the
  -- same.
  pub await_service-rounds :
      (service : Service) (name network : Bytes) (allowed : ℕ) (s : State env)
      → readiness_timeout service.readiness ≤ allowed
      → await_service service name network s
        ≡ (outside env.now_ms >>= λ now.
              await_rounds service name network
                (now + readiness_timeout service.readiness)
                (suc allowed))
            s
  unfolding await_service outside ◌>>=◌
  await_service-rounds service name network allowed s enough =
      let w = s.world in
      let timeout = readiness_timeout service.readiness in
      (rounds-Agree service name network ((env.now_ms w).0 + timeout) timeout allowed
          (time (env.now_ms w).1) enough (omega (arith, reads w, now_later w))).at
        (record s { world = (env.now_ms w).1 }) (omega arith)
