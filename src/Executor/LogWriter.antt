-- ===== src/Executor/LogWriter.antt =====
-- logWriter of executor.go: the output of a step, redacted, cut into log events, and bounded.
-- The goroutine that copies a process's output calls `Write` for each piece and stops at an error.
pub mod Bounds
pub mod Contents
pub mod Output
pub mod Records
use robine_ci.Prelude.{
  ℕ, zero, suc, ◌+◌, ◌-◌, Bool, true, false, Option, none, some, List, [], ◌∷◌, ◌++◌, if◌then◌else◌,
  leb, length, take, drop, min,
}
use robine_ci.Prelude.Bytes.{Bytes, codes}
use robine_ci.Redactor
use robine_ci.Redactor.{Redactor, new_redactor}
use robine_ci.Run.{Run, pure, ◌>>=◌, ◌>>◌}
use robine_ci.Executor.{Env, State, execution, outside, send_log, StepLog}

unfoldable pub max_output_bytes : ℕ
max_output_bytes = 10_000_000

-- The most bytes of output in one log event.
unfoldable pub max_chunk_bytes : ℕ
max_chunk_bytes = 60_000

pub record LogWriter : Type 0 where
  pub step : StepLog
  pub redactor : Redactor
  pub written : ℕ
  pub delivery_error : Option Bytes

unfoldable pub new_log_writer : StepLog → List (Bytes × Bytes) → LogWriter
new_log_writer step secrets = record {
  step = step;
  redactor = new_redactor secrets;
  written = 0;
  delivery_error = none;
}

abbrev pub stop_on : {A : Type 0} → Option Bytes → A → A → A
stop_on (some error) a b = a
stop_on none a b = b

module _ {env : Env} where
  -- One log event with a piece of output; the error, if it cannot be delivered.
  unfoldable pub send_chunk : LogWriter → Bytes → Run (State env) (Option Bytes)
  send_chunk w chunk = do
    duration ← outside env.elapsed_ms
    send_log execution w.step (codes "running") (codes "combined") none duration chunk

  -- `for len(output) > 0`: each round sends at least one byte, so the length is enough fuel.
  unfoldable pub deliver_chunks : ℕ → LogWriter → Bytes → Run (State env) LogWriter
  deliver_chunks zero w output = pure w
  deliver_chunks (suc fuel) w [] = pure w
  deliver_chunks (suc fuel) w (c ∷ output) = do
    let chunk = take max_chunk_bytes (c ∷ output)
    reply ← send_chunk w chunk
    elim reply [
      | some error ↦ pure (record w { delivery_error = some error })
      | none ↦
          deliver_chunks fuel (record w { written = w.written + length chunk })
            (drop max_chunk_bytes (c ∷ output))
    ]

  unfoldable pub deliver : LogWriter → Bytes → Run (State env) LogWriter
  deliver w output =
      if leb max_output_bytes w.written
      then pure w
      else let kept = take (max_output_bytes - w.written) output in
        deliver_chunks (length kept) w kept

  pub write_unless : Option Bytes → LogWriter → Bytes → Run (State env) LogWriter
  write_unless (some error) w input = pure w
  write_unless none w input =
      let (output, redactor) = Redactor.push w.redactor input in
      deliver (record w { redactor = redactor }) output

  -- The writer that is left; `Write` reports the writer's delivery error, if there is one.
  unfoldable pub write : LogWriter → Bytes → Run (State env) LogWriter
  unfolding write_unless
  write w input = write_unless w.delivery_error w input

  -- The copying goroutine, over the pieces that the process writes.
  unfoldable pub write_all : LogWriter → List Bytes → Run (State env) LogWriter
  write_all w [] = pure w
  write_all w (input ∷ inputs) = do
    w' ← write w input
    stop_on w'.delivery_error (pure w') (write_all w' inputs)

  -- `finish` delivers what the redactor held back, whatever went wrong before.
  unfoldable pub finish : LogWriter → Run (State env) LogWriter
  finish w =
      let (output, redactor) = Redactor.finish w.redactor in
      deliver (record w { redactor = redactor }) output
