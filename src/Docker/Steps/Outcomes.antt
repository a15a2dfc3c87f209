-- ===== src/Docker/Steps/Outcomes.antt =====
-- How running the steps of a job in containers can end.
use robine_ci.Prelude.{
  ℕ, ◌+◌, ◌≡◌, ◌≢◌, refl, Bool, true, false, not, Option, none, some, List, [], ◌∷◌, ◌&&◌, inl, inr,
  if◌then◌else◌,
}
use mathlib.Core.Path.{subst}
use robine_ci.Prelude.Bytes.{Bytes, codes, bytes_eq}
use robine_ci.Offer.{Offer, JobStep, is_empty}
use robine_ci.Run.{Run}
use robine_ci.Executor.{Env, State, ContextError, Outcome, condition_matches}
use robine_ci.Executor.Environment.{Variables}
use robine_ci.Executor.Steps.{skip_step}
use robine_ci.Executor.Steps.Outcomes.{
  IsFinal, Returns, Returns-pure, Returns-if, Returns-bind, after_step-Returns,
  IsInterrupted-IsFinal, context_outcome-IsInterrupted, empty_ne, ne_empty,
}
use robine_ci.Docker.{Service, Resources}
use robine_ci.Docker.Steps.{run_steps, steps_loop, one_step, enter_step, start_step, with_services}

module _ {env : Env} (builtin : Bytes → JobStep → Run (State env) (Option Bytes))
    (cwd container : Bytes) (offer : Offer) (resources : Resources) (services : List Service)
    (secrets : Variables) (root : Bytes) where
  one_step-IsFinal :
      (next : Bool → Bytes → ℕ → Run (State env) Outcome) (step : JobStep) (failed : Bool)
      (reason : Bytes) (position : ℕ)
      → ((n : ℕ) → Returns IsFinal (next failed reason n))
      → ((n : ℕ) (r : Bytes)
          → is_empty r ≡ false
          → Returns IsFinal (next true (if is_empty reason then r else reason) n))
      → Returns IsFinal (
          one_step builtin cwd container offer resources services secrets root next step failed
            reason position)
  unfolding one_step skip_step enter_step
  one_step-IsFinal next step failed reason position good bad =
      Returns-if (bytes_eq step.kind (codes "builtin") && bytes_eq step.value (codes "checkout")) _
        _ (λ _. good position)
        (λ _.
          Returns-if (not (condition_matches condition failed)) _ _
            (λ _. Returns-bind _ _ (λ sent. good (position + 1))) (λ _. Returns-bind _ _ started))
    where
      condition : Bytes
      condition = if is_empty step.condition then codes "success" else step.condition

      running :
          (b : Bool)
          → Returns IsFinal (
              with_services builtin cwd container offer resources services secrets root
                (λ f r. next f r (position + 1))
                step
                condition
                (position + 1)
                failed
                reason
                b)
      running false = unfold with_services in Returns-pure _ (inr (inl (refl, λ e. cc)))
      running true =
          unfold with_services in
          Returns-bind _ _ (λ r.
            after_step-Returns IsInterrupted-IsFinal (λ f r'. next f r' (position + 1)) failed
              reason r (λ _. good (position + 1)) (bad (position + 1) r))

      started :
          (e : Option ContextError)
          → Returns IsFinal (
              start_step builtin cwd container offer resources services secrets root
                (λ f r. next f r (position + 1))
                step
                condition
                (position + 1)
                failed
                reason
                e)
      started (some e) =
          unfold start_step in
          Returns-bind _ _
            (λ e'. Returns-pure _ (IsInterrupted-IsFinal _ (context_outcome-IsInterrupted e')))
      started none = unfold start_step in Returns-bind _ _ running

  failed-IsFinal :
      (steps : List JobStep) (reason : Bytes) (position : ℕ)
      → reason ≢ []
      → Returns IsFinal (
          steps_loop builtin cwd container offer resources services secrets root steps true reason
            position)
  unfolding steps_loop
  failed-IsFinal [] reason position full = Returns-pure _ (inr (inl (refl, full)))
  failed-IsFinal (step ∷ steps) reason position full =
      one_step-IsFinal
        (steps_loop builtin cwd container offer resources services secrets root steps) step true
        reason position (λ n. failed-IsFinal steps reason n full)
        (λ n r _.
          let same : reason ≡ (if is_empty reason then r else reason) = rw (ne_empty reason full) in
          subst
            (λ x. Returns IsFinal (
              steps_loop builtin cwd container offer resources services secrets root steps true x
                n))
            same (failed-IsFinal steps reason n full))

  loop-IsFinal :
      (steps : List JobStep) (position : ℕ)
      → Returns IsFinal (
          steps_loop builtin cwd container offer resources services secrets root steps false []
            position)
  unfolding steps_loop
  loop-IsFinal [] position = Returns-pure _ (inl (refl, refl))
  loop-IsFinal (step ∷ steps) position =
      one_step-IsFinal
        (steps_loop builtin cwd container offer resources services secrets root steps) step false []
        position (λ n. loop-IsFinal steps n)
        (λ n r full. failed-IsFinal steps r n (empty_ne r full))

  pub run_steps-Final :
      (s : State env)
      → IsFinal (run_steps builtin cwd container offer resources services secrets root s).0
  unfolding run_steps
  run_steps-Final s = (loop-IsFinal offer.execution.steps 0).at s
