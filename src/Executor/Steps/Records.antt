-- ===== src/Executor/Steps/Records.antt =====
-- What running the steps of a job keeps: any property of the executor's state that calls of the
-- environment and log events keep.
use robine_ci.Prelude.{ℕ, Bool, false, Option, none, some, List, [], ◌∷◌}
use robine_ci.Prelude.Bytes.{Bytes}
use robine_ci.Offer.{Offer, JobStep}
use robine_ci.Run.{Run, Preserves, Preserves-pure, Preserves-if, Preserves-bind, preserves_rules}
use robine_ci.Executor.{Env, State, ContextError, Outcome}
use robine_ci.Executor.Keeping.{Numbered, Numbered-Admits, Admits}
use robine_ci.Executor.Commands.Records.{run_command-Preserves, run_builtin-Preserves}
use robine_ci.Executor.Environment.{Variables}
use robine_ci.Executor.Steps.{
  run_step, run_steps, steps_loop, one_step, after_step, skip_step, enter_step, start_step,
}

module _ {env : Env} {P : State env → Type 0} (admits : Admits P) where
  open admits use {calls, logs}

  run_step-Preserves :
      (builtin : JobStep → Run (State env) (Option Bytes)) (offer : Offer) (workspace : Bytes)
      (secrets : Variables) (position : ℕ) (step : JobStep) (condition : Bytes)
      → ((s : JobStep) → Preserves P (builtin s))
      → Preserves P (run_step builtin offer workspace secrets position step condition)
  unfolding run_step
  run_step-Preserves builtin offer workspace secrets position step condition kept =
      Preserves-if _ _ _
        (run_command-Preserves admits offer workspace secrets position step condition)
        (Preserves-if _ _ _
          (run_builtin-Preserves admits builtin offer position step condition (kept step))
          (Preserves-bind _ _ (logs _ _ _ _ _ _ _) (λ r. Preserves-pure _)))

  pub after_step-Preserves :
      (next : Bool → Bytes → Run (State env) Outcome) (failed : Bool) (reason step_reason : Bytes)
      → ((f : Bool) (r : Bytes) → Preserves P (next f r))
      → Preserves P (after_step next failed reason step_reason)
  unfolding after_step
  after_step-Preserves next failed reason step_reason kept = search (preserves_rules, kept)

  pub skip_step-Preserves :
      (offer : Offer) (next : Bool → Bytes → Run (State env) Outcome) (step : JobStep)
      (condition : Bytes) (position : ℕ) (failed : Bool) (reason : Bytes)
      → ((f : Bool) (r : Bytes) → Preserves P (next f r))
      → Preserves P (skip_step offer next step condition position failed reason)
  unfolding skip_step
  skip_step-Preserves offer next step condition position failed reason kn =
      Preserves-bind _ _ (logs _ _ _ _ _ _ _) (λ r. kn failed reason)

  enter_step-Preserves :
      (run : ℕ → JobStep → Bytes → Run (State env) Bytes)
      (next : Bool → Bytes → Run (State env) Outcome) (step : JobStep) (condition : Bytes)
      (position : ℕ) (failed : Bool) (reason : Bytes)
      → ((n : ℕ) (s : JobStep) (c : Bytes) → Preserves P (run n s c))
      → ((f : Bool) (r : Bytes) → Preserves P (next f r))
      → Preserves P (enter_step run next step condition position failed reason)
  unfolding enter_step start_step
  enter_step-Preserves run next step condition position failed reason kr kn =
      Preserves-bind _ _ (calls _) started
    where
      started :
          (e : Option ContextError)
          → Preserves P (start_step run next step condition position failed reason e)
      started (some e) = Preserves-bind _ _ (calls _) (λ e'. Preserves-pure _)
      started none =
          Preserves-bind _ _ (kr position step condition)
            (λ r. after_step-Preserves next failed reason r kn)

  one_step-Preserves :
      (run : ℕ → JobStep → Bytes → Run (State env) Bytes) (offer : Offer)
      (next : Bool → Bytes → ℕ → Run (State env) Outcome) (step : JobStep) (failed : Bool)
      (reason : Bytes) (position : ℕ)
      → ((n : ℕ) (s : JobStep) (c : Bytes) → Preserves P (run n s c))
      → ((f : Bool) (r : Bytes) (n : ℕ) → Preserves P (next f r n))
      → Preserves P (one_step run offer next step failed reason position)
  unfolding one_step
  one_step-Preserves run offer next step failed reason position kr kn =
      search (Preserves-if, kn, skip_step-Preserves, enter_step-Preserves, kr)

  steps_loop-Preserves :
      (run : ℕ → JobStep → Bytes → Run (State env) Bytes) (offer : Offer) (steps : List JobStep)
      (failed : Bool) (reason : Bytes) (position : ℕ)
      → ((n : ℕ) (s : JobStep) (c : Bytes) → Preserves P (run n s c))
      → Preserves P (steps_loop run offer steps failed reason position)
  unfolding steps_loop
  steps_loop-Preserves run offer [] failed reason position kr = Preserves-pure _
  steps_loop-Preserves run offer (step ∷ steps) failed reason position kr =
      one_step-Preserves run offer (steps_loop run offer steps) step failed reason position kr
        (λ f r n. steps_loop-Preserves run offer steps f r n kr)

  pub run_steps-Preserves :
      (builtin : JobStep → Run (State env) (Option Bytes)) (offer : Offer) (workspace : Bytes)
      (secrets : Variables)
      → ((s : JobStep) → Preserves P (builtin s))
      → Preserves P (run_steps builtin offer workspace secrets)
  run_steps-Preserves builtin offer workspace secrets kept =
      unfold run_steps in
      steps_loop-Preserves _ offer offer.execution.steps false [] 0
        (λ n s c. run_step-Preserves builtin offer workspace secrets n s c kept)

-- If the log events sent so far are numbered 1, 2, …, then so they are after the steps of a job have
-- run, those of the steps included, provided that the builtin steps keep it so.
pub run_steps-Numbered :
    {env : Env} (builtin : JobStep → Run (State env) (Option Bytes)) (offer : Offer)
    (workspace : Bytes) (secrets : Variables) (s : State env)
    → ((step : JobStep) → Preserves Numbered (builtin step))
    → Numbered s
    → Numbered (run_steps builtin offer workspace secrets s).1
run_steps-Numbered builtin offer workspace secrets s kept numbered =
    (run_steps-Preserves Numbered-Admits builtin offer workspace secrets kept).at s numbered
