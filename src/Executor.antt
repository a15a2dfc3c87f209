-- ===== src/Executor.antt =====
-- runner-go/internal/runner/executor.go and attemptEvent of runner.go: what the executor of a job
-- reports over the channel. `Env` is what the code calls and does not implement: contexts, the
-- channel's reply, the clock, random message ids and processes. Each call may change the outside
-- world, so a context may be cancelled between any two of them.
pub mod Keeping
pub mod LogWriter
pub mod Environment
pub mod Options
pub mod Builtins
pub mod Commands
pub mod Steps
pub mod Attempt
use robine_ci.Prelude.{
  ℕ, suc, ◌+◌, Bool, true, false, not, Option, none, some, List, [], ◌∷◌, ◌++◌, if◌then◌else◌,
}
use robine_ci.Prelude.Bytes.{Bytes, codes, bytes_eq}
use robine_ci.Prelude.Int.{ℤ}
use robine_ci.Application.{Cause}
use robine_ci.Offer.{Offer, is_empty}
use robine_ci.Run.{Run, pure, ◌>>=◌, ◌>>◌}

-- `ctx.Err()`
pub data ContextError : Type 0 where
  deadline_exceeded context_canceled : ContextError

-- The job's context as it came, with the job's timeout, without its cancellation, the latter with a
-- timeout of 30 seconds, context.Background(), and a context with a timeout of that many milliseconds.
pub data Context : Type 0 where
  outer execution detached delivery background : Context
  limited : ℕ → Context → Context

pub record LogEvent : Type 0 where
  pub attempt_id : Bytes
  pub sequence : ℕ
  pub step_position : ℕ
  pub step_name : Bytes
  pub status : Bytes
  pub condition : Bytes
  pub stream : Bytes
  pub exit_code : Option ℤ
  pub duration_ms : ℕ
  pub content : Bytes

pub record AttemptEvent : Type 0 where
  pub attempt_id : Bytes
  pub idempotency_token : Bytes
  pub message_id : Bytes
  pub sequence : ℕ
  pub status : Bytes
  pub reason : Option Bytes

pub data Request : Type 0 where
  log_event : LogEvent → Request
  attempt_event : AttemptEvent → Request

pub record Command : Type 0 where
  pub path : Bytes
  pub arguments : List Bytes
  pub directory : Bytes
  pub environment : List (Bytes × Bytes)

-- What `cmd.Wait` returns of a process that did not end well: an exec.ExitError with its code, or
-- another error.
pub data WaitError : Type 0 where
  exit_error : ℤ → WaitError
  other_error : WaitError

pub record Env : Type 1 where
  pub World : Type 0
  pub context_error : Context → World → Option ContextError × World
  pub context_cause : World → Option Cause × World
  -- `none` is a reply with status "ok"; otherwise the error
  pub request : Context → Request → World → Option Bytes × World
  pub message_id : World → Option Bytes × World
  pub elapsed_ms : World → ℕ × World
  -- whether the process starts; the pieces of output that it writes; what `Wait` returns when it
  -- has ended by itself or was terminated
  pub start : Command → World → Bool × World
  pub output : World → List Bytes × World
  pub wait : World → Option WaitError × World
  -- `docker` with its arguments and standard input from no file, run to its end: what CombinedOutput
  -- returns
  pub combined_output : Context → List Bytes → World → (Option WaitError × Bytes) × World
  -- the same with the archive of a directory (writeDockerCopyArchive) as its standard input; the error
  -- of the archive comes with what CombinedOutput returns
  pub combined_output_with :
      Context → Bytes → List Bytes → World → (Option Bytes × (Option WaitError × Bytes)) × World
  -- time.Now in milliseconds; a timer of that many milliseconds against a context: whether the context
  -- is done first
  pub now_ms : World → ℕ × World
  pub wait_timer : Context → ℕ → World → Bool × World
  -- what `Wait` returns, or none where the context of the steps is done before it does; Process.Kill;
  -- what `Wait` returns within two seconds, if it does
  pub wait_or_done : World → Option (Option WaitError) × World
  pub kill : World → Unit {0} × World
  pub wait_killed : World → Option (Option WaitError) × World
  -- os.Environ()
  pub environ : List Bytes
  -- context.WithTimeout for the steps, with nanoseconds
  pub start_timeout : ℕ → World → Unit {0} × World
  -- os.MkdirTemp with a pattern, os.Chmod to 0o700, os.Mkdir and os.MkdirAll with 0o700, os.RemoveAll:
  -- the directory made, whether the call succeeds, or the text of its error
  pub make_temp : Bytes → World → Option Bytes × World
  pub secure : Bytes → World → Bool × World
  pub make_dir : Bytes → World → Option Bytes × World
  pub make_dirs : Bytes → World → Option Bytes × World
  pub remove_all : Bytes → World → Bool × World
  -- `transfers.get` with a URL and what is accepted: the body and the status of the response, or none
  -- after an error
  pub get : Context → Bytes → Bytes → World → Option (Bytes × ℕ) × World
  -- the field `secrets` of a JSON document, if the document decodes and has it
  pub decode_secrets : Bytes → Option (List (Bytes × Bytes))

-- The executor's state: the world, `logSequence`, and the requests and the Docker commands made so far.
pub record State (env : Env) : Type 0 where
  pub world : env.World
  pub log_sequence : ℕ
  pub sent : List Request
  pub commands : List (List Bytes)

module _ {env : Env} where
  -- A call of the environment.
  unfoldable pub outside : {A : Type 0} → (env.World → A × env.World) → Run (State env) A
  outside call s = let (a, world) = call s.world in (a, record s { world = world })

  unfoldable pub send : Context → Request → Run (State env) (Option Bytes)
  send ctx r s =
      let (reply, world) = env.request ctx r s.world in
      (reply, record s { world = world; sent = s.sent ++ r ∷ [] })

  -- `e.logSequence.Add(1)`
  unfoldable pub next_sequence : Run (State env) ℕ
  next_sequence s = (suc s.log_sequence, record s { log_sequence = suc s.log_sequence })

-- The part of a log event that belongs to the step and not to the line.
pub record StepLog : Type 0 where
  pub attempt_id : Bytes
  pub position : ℕ
  pub step_name : Bytes
  pub condition : Bytes

abbrev log_of : StepLog → ℕ → Bytes → Bytes → Option ℤ → ℕ → Bytes → Request
log_of step cursor status stream exit_code duration content = log_event (record {
  attempt_id = step.attempt_id;
  sequence = cursor;
  step_position = step.position;
  step_name = step.step_name;
  status = status;
  condition = step.condition;
  stream = stream;
  exit_code = exit_code;
  duration_ms = duration;
  content = content;
})

abbrev pub event_of : Offer → ℕ → Bytes → Bytes → Bytes → Request
event_of offer sequence status reason id = attempt_event (record {
  attempt_id = offer.attempt_id;
  idempotency_token = offer.idempotency_token;
  message_id = id;
  sequence = sequence;
  status = status;
  reason = if is_empty reason then none else some reason;
})

-- terminalDeliveryAllowed, of the cause of the context.
unfoldable pub allows_delivery : Option Cause → Bool
allows_delivery (some Cause.runner_shutdown) = false
allows_delivery (some Cause.lease_lost) = false
allows_delivery _ = true

module _ {env : Env} where
  -- The error of the request, if it fails.
  unfoldable pub send_log :
      Context → StepLog → Bytes → Bytes → Option ℤ → ℕ → Bytes → Run (State env) (Option Bytes)
  send_log ctx step status stream exit_code duration content = do
    cursor ← next_sequence
    send ctx (log_of step cursor status stream exit_code duration content)

  pub deliver_event :
      Context → Offer → ℕ → Bytes → Bytes → Option Bytes → Run (State env) (Option Bytes)
  deliver_event ctx offer sequence status reason none = pure (some (codes "generate message ID"))
  deliver_event ctx offer sequence status reason (some id) =
      send ctx (event_of offer sequence status reason id)

  -- attemptEvent; the result is its error. `""` as the reason is sent as null.
  pub send_attempt_event : Context → Offer → ℕ → Bytes → Bytes → Run (State env) (Option Bytes)
  unfolding deliver_event
  send_attempt_event ctx offer sequence status reason = do
    id ← outside env.message_id
    deliver_event ctx offer sequence status reason id

  pub terminal_delivery_allowed : Run (State env) Bool
  unfolding allows_delivery
  terminal_delivery_allowed = do cause ← outside env.context_cause; pure (allows_delivery cause)

pub record Outcome : Type 0 where
  pub status : Bytes
  pub reason : Bytes

-- contextOutcome, of what `ctx.Err()` returns.
unfoldable pub context_outcome : Option ContextError → Outcome
context_outcome (some deadline_exceeded) = record {
  status = codes "failed";
  reason = codes "timeout";
}
context_outcome _ = record { status = codes "cancelled"; reason = codes "cancelled" }

unfoldable pub condition_matches : Bytes → Bool → Bool
condition_matches condition failed =
    if bytes_eq condition (codes "success")
    then not failed
    else if bytes_eq condition (codes "failure")
    then failed
    else bytes_eq condition (codes "always")
