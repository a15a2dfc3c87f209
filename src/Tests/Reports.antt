-- ===== src/Tests/Reports.antt =====
-- Tests of the executor.
use robine_ci.Prelude.{
  ◌*◌, ◌≡◌, refl, arith, Bool, true, Option, none, some, List, [], ◌∷◌, ◌++◌, length, take,
}
use robine_ci.Prelude.Bytes.{Bytes, codes, bytes_eq}
use robine_ci.Prelude.Int.{pos}
use robine_ci.Offer.{JobStep}
use robine_ci.Redactor
use robine_ci.Redactor.{new_redactor, push, consume}
use robine_ci.Redactor.Stream.{stream}
use robine_ci.Run.{Run, pure, ◌>>=◌, Preserves-pure}
use robine_ci.Executor.{State, AttemptEvent, send, outside, next_sequence, send_log}
use robine_ci.Executor.Keeping.{Numbered, up_to, attempt_events}
use robine_ci.Executor.Environment.{
  insert_all, insert, cut_at_equals, merged_environment, job_environment, lookup, insert_environ,
  job_value, environment_precedence,
}
use robine_ci.Executor.LogWriter.{
  write, deliver, deliver_chunks, send_chunk, max_chunk_bytes, new_log_writer, write_all, finish,
  max_output_bytes,
}
use robine_ci.Executor.LogWriter.Bounds.{IsBounded, log_bounds}
use robine_ci.Executor.LogWriter.Contents.{contents}
use robine_ci.Executor.LogWriter.Output.{log_output}
use robine_ci.Executor.Steps.{steps_loop, run_steps}
use robine_ci.Executor.Steps.Outcomes.{FailedBy, steps_after_failure}
use robine_ci.Executor.Steps.Records.{run_steps-Numbered}
use robine_ci.Executor.Attempt.{run_native, steps_timeout, nanoseconds_per_ms}
use robine_ci.Executor.Attempt.Reports.{Report}
use robine_ci.Executor.Attempt.Lifecycle.{run_native-Report}
use robine_ci.Executor.Attempt.Timeout.{steps_timeout_exact}
use robine_ci.Tests.Data.{token_values, pieces, build_step, build_log, first_offer, calm, fresh}

abbrev no_builtin : JobStep → Run (State calm) (Option Bytes)
no_builtin step = pure none

abbrev no_archive : Bytes → Bytes → Run (State calm) Bool
no_archive body target = pure true

log_output_example :
    contents ((write_all (new_log_writer build_log token_values) pieces >>= finish) fresh).1.sent
    ≡ [] ++ take max_output_bytes (stream (new_redactor token_values) pieces)
unfolding ◌>>=◌ pure write_all finish write deliver deliver_chunks send_chunk send_log
    new_log_writer outside next_sequence send max_output_bytes max_chunk_bytes new_redactor push
    consume bytes_eq Redactor.finish
log_output_example = log_output build_log token_values pieces fresh refl

log_bounds_example :
    IsBounded
      (length (contents fresh.sent))
      ((write_all (new_log_writer build_log token_values) pieces >>= finish) fresh)
log_bounds_example = log_bounds build_log token_values pieces fresh tt

environment_precedence_example :
    (lookup (codes "A") (merged_environment (codes "A=0" ∷ []) first_offer.execution token_values)
      ≡ job_value first_offer.execution token_values
          (codes "A")
          (lookup (codes "A") (insert_environ (codes "A=0" ∷ []) [])))
    × (lookup (codes "A") (job_environment first_offer.execution token_values)
        ≡ job_value first_offer.execution token_values (codes "A") none)
environment_precedence_example =
    environment_precedence (codes "A=0" ∷ []) first_offer.execution token_values (codes "A")

build_env_counts :
    lookup (codes "A") (merged_environment (codes "A=0" ∷ []) first_offer.execution token_values)
    ≡ some (codes "2")
unfolding lookup merged_environment insert_all insert insert_environ cut_at_equals bytes_eq
build_env_counts = refl

steps_after_failure_example :
    FailedBy
      (codes "command_failed")
      (steps_loop
        (λ n step c. pure [])
        first_offer
        (build_step ∷ [])
        true
        (codes "command_failed")
        1
        fresh).0
steps_after_failure_example =
    steps_after_failure (λ n step c. pure []) first_offer (build_step ∷ []) (codes "command_failed")
      1 fresh (λ e. cc)

fresh-Numbered : Numbered fresh
unfolding up_to
fresh-Numbered = record { are = refl }

run_steps-Numbered_example :
    Numbered (run_steps no_builtin first_offer (codes "/w") token_values fresh).1
run_steps-Numbered_example =
    run_steps-Numbered no_builtin first_offer (codes "/w") token_values fresh
      (λ step. Preserves-pure none) fresh-Numbered

run_native-Report_example :
    (es : List AttemptEvent) × (attempt_events
        (run_native no_builtin no_archive first_offer fresh).1.sent
      ≡ attempt_events fresh.sent ++ es)
    × Report first_offer es
run_native-Report_example =
    run_native-Report no_builtin no_archive first_offer fresh (λ step es. Preserves-pure none)
      (λ body target es. Preserves-pure true)

steps_timeout_exact_example : steps_timeout (pos 60_000) ≡ 60_000 * nanoseconds_per_ms
steps_timeout_exact_example = steps_timeout_exact 60_000 (omega arith) (omega arith)
