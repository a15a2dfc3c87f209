-- ===== src/Executor/Steps.antt =====
-- runSteps of executor.go.
pub mod Outcomes
pub mod Records
use robine_ci.Prelude.{
  ℕ, ◌+◌, Bool, true, false, not, ◌||◌, ◌&&◌, Option, none, some, List, [], ◌∷◌, if◌then◌else◌,
}
use robine_ci.Prelude.Bytes.{Bytes, codes, bytes_eq}
use robine_ci.Prelude.Int.{ℤ, pos}
use robine_ci.Offer.{Offer, JobStep, is_empty}
use robine_ci.Run.{Run, pure, ◌>>=◌, ◌>>◌}
use robine_ci.Executor.{
  Env, State, ContextError, execution, outside, send_log, Outcome, context_outcome,
  condition_matches,
}
use robine_ci.Executor.Environment.{Variables}
use robine_ci.Executor.Commands.{step_log, run_command, run_builtin}

module _ {env : Env} where
  unfoldable pub run_step :
      (JobStep → Run (State env) (Option Bytes))
      → Offer
      → Bytes
      → Variables
      → ℕ
      → JobStep
      → Bytes
      → Run (State env) Bytes
  run_step builtin offer workspace secrets position step condition =
      if bytes_eq step.kind (codes "run")
      then run_command offer workspace secrets position step condition
      else if bytes_eq step.kind (codes "builtin")
      then run_builtin builtin offer position step condition
      else (do
        send_log execution (step_log offer position step condition) (codes "failed")
            (codes "system") (some (pos 1)) 0 (codes "unsupported step kind")
        pure (codes "command_failed"))

  -- What follows a step that ended with a reason; `next` is the loop over the later steps, from
  -- `failed` and `reason` on.
  pub after_step :
      (Bool → Bytes → Run (State env) Outcome) → Bool → Bytes → Bytes → Run (State env) Outcome
  after_step next failed reason step_reason =
      if bytes_eq step_reason (codes "cancelled")
      then pure (record { status = codes "cancelled"; reason = step_reason })
      else if bytes_eq step_reason (codes "timeout")
      then pure (record { status = codes "failed"; reason = step_reason })
      else if is_empty step_reason
      then next failed reason
      else next true (if is_empty reason then step_reason else reason)

  -- The condition does not hold: the step is reported as skipped.
  unfoldable pub skip_step :
      Offer
      → (Bool → Bytes → Run (State env) Outcome)
      → JobStep
      → Bytes
      → ℕ
      → Bool
      → Bytes
      → Run (State env) Outcome
  skip_step offer next step condition position failed reason = do
    send_log execution (step_log offer position step condition) (codes "skipped") (codes "system")
        none 0 []
    next failed reason

  -- The condition holds; the last argument is what `ctx.Err()` returns.
  pub start_step :
      (ℕ → JobStep → Bytes → Run (State env) Bytes)
      → (Bool → Bytes → Run (State env) Outcome)
      → JobStep
      → Bytes
      → ℕ
      → Bool
      → Bytes
      → Option ContextError
      → Run (State env) Outcome
  start_step run next step condition position failed reason (some e) = do
    error ← outside (env.context_error execution)
    pure (context_outcome error)
  start_step run next step condition position failed reason none = do
    step_reason ← run position step condition
    after_step next failed reason step_reason

  pub enter_step :
      (ℕ → JobStep → Bytes → Run (State env) Bytes)
      → (Bool → Bytes → Run (State env) Outcome)
      → JobStep
      → Bytes
      → ℕ
      → Bool
      → Bytes
      → Run (State env) Outcome
  enter_step run next step condition position failed reason = do
    error ← outside (env.context_error execution)
    start_step run next step condition position failed reason error

  -- One round of the loop; `run` is the rest of `runSteps` for the step, at its position and with its
  -- condition, and `next` is as above, with the position.
  pub one_step :
      (ℕ → JobStep → Bytes → Run (State env) Bytes)
      → Offer
      → (Bool → Bytes → ℕ → Run (State env) Outcome)
      → JobStep
      → Bool
      → Bytes
      → ℕ
      → Run (State env) Outcome
  one_step run offer next step failed reason previous =
      let position = previous + 1 in
      let condition = if is_empty step.condition then codes "success" else step.condition in
      if bytes_eq step.kind (codes "builtin") && bytes_eq step.value (codes "checkout")
      then next failed reason previous
      else if not (condition_matches condition failed)
      then skip_step offer (λ f r. next f r position) step condition position failed reason
      else enter_step run (λ f r. next f r position) step condition position failed reason

  pub steps_loop :
      (ℕ → JobStep → Bytes → Run (State env) Bytes)
      → Offer
      → List JobStep
      → Bool
      → Bytes
      → ℕ
      → Run (State env) Outcome
  steps_loop run offer [] failed reason position = pure (
      if failed
      then record { status = codes "failed"; reason = reason }
      else record { status = codes "succeeded"; reason = [] })
  steps_loop run offer (step ∷ steps) failed reason position =
      one_step run offer (steps_loop run offer steps) step failed reason position

  unfoldable pub run_steps :
      (JobStep → Run (State env) (Option Bytes))
      → Offer
      → Bytes
      → Variables
      → Run (State env) Outcome
  unfolding steps_loop one_step enter_step start_step skip_step after_step run_step
  run_steps builtin offer workspace secrets =
      steps_loop
        (λ position step condition.
          run_step builtin offer workspace secrets position step condition)
        offer offer.execution.steps false [] 0
