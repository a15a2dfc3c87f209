-- ===== src/Application.antt =====
-- runner-go/internal/runner/runner.go: the application's state and the sections that it runs under
-- its mutex. A `context.CancelCauseFunc` is the number of its context; `cause` is what
-- `context.Cause` of that context gives, and the first cancellation decides it. `running` is the
-- counter of `executionWG`. The code reads cancel functions under the mutex and calls them after it
-- has given the mutex up: `pending` are the calls read by some goroutine and not made yet, and
-- `make_call` makes one. What several goroutines do together is in Application/World.
pub mod World
pub mod Books
pub mod Invariant
pub mod Safety
pub mod Drain
pub mod Clean
pub mod Causes
use robine_ci.Prelude.{
  ℕ, suc, ◌+◌, ◌-◌, Bool, true, false, ◌||◌, Option, none, some, List, [], ◌∷◌, ◌++◌, map, leb,
  length, ◌==◌, if◌then◌else◌,
}
use robine_ci.Prelude.Bytes.{Bytes, bytes_eq}
use robine_ci.Offer.{Offer, valid_offer}

-- The causes that a context is cancelled with; `canceled` is context.Canceled.
pub data Cause : Type 0 where
  cancellation_requested lease_lost runner_shutdown runner_revoked canceled : Cause

-- A call to be made: of the cancel function of a context, or of `stopChannel`.
pub data Call : Type 0 where
  of_context : ℕ → Cause → Call
  of_channel : Cause → Call

pub record App : Type 0 where
  pub executions : List (Bytes × ℕ)
  pub cause : ℕ → Option Cause
  pub next_context : ℕ
  pub running : ℕ
  pub stopping : Bool
  pub pending : List Call
  pub channel_cause : Option Cause

-- Run: the state before the channel is opened.
abbrev pub new_app : App
new_app = record {
  executions = [];
  cause = λ n. none;
  next_context = 0;
  running = 0;
  stopping = false;
  pending = [];
  channel_cause = none;
}

abbrev pub ids : List (Bytes × ℕ) → List Bytes
ids [] = []
ids ((id, _) ∷ m) = id ∷ ids m

unfoldable pub active_attempt_ids : App → List Bytes
active_attempt_ids a = ids a.executions

-- `a.executions[id]`
pub lookup : Bytes → List (Bytes × ℕ) → Option ℕ
lookup id [] = none
lookup id ((j, ctx) ∷ m) = if bytes_eq j id then some ctx else lookup id m

-- `delete(a.executions, id)`
pub delete : Bytes → List (Bytes × ℕ) → List (Bytes × ℕ)
delete id [] = []
delete id ((j, ctx) ∷ m) = let rest = delete id m in if bytes_eq j id then rest else (j, ctx) ∷ rest

first_cause : Option Cause → Cause → Option Cause
first_cause none c = some c
first_cause (some d) c = some d

-- `cancel(cause)` of one context.
unfoldable pub cancel_context : App → ℕ → Cause → App
unfolding first_cause
cancel_context a ctx c = record a {
  cause = λ n. if n == ctx then first_cause (a.cause n) c else a.cause n;
}

-- A goroutine makes one of the calls that it has still to make.
unfoldable pub make_call : App → Call → App
unfolding cancel_context first_cause
make_call a (of_context ctx c) = cancel_context a ctx c
make_call a (of_channel c) = record a { channel_cause = first_cause a.channel_cause c }

unfoldable pub to_call : App → List Call → App
to_call a calls = record a { pending = a.pending ++ calls }

-- The `cancels` that a loop over the map collects, each to be called with the cause.
unfoldable pub cancels : List (Bytes × ℕ) → Cause → List Call
cancels [] c = []
cancels ((_, ctx) ∷ m) c = of_context ctx c ∷ cancels m c

pub cancel_found : Option ℕ → Cause → List Call
cancel_found none c = []
cancel_found (some ctx) c = of_context ctx c ∷ []

unfoldable pub cancel_with : App → Bytes → Cause → App
unfolding to_call cancel_found lookup
cancel_with a id c = to_call a (cancel_found (lookup id a.executions) c)

unfoldable pub cancel : App → Bytes → App
unfolding cancel_with
cancel a id = cancel_with a id cancellation_requested

unfoldable pub cancel_all : App → Cause → App
unfolding to_call cancels
cancel_all a c = to_call a (cancels a.executions c)

unfoldable pub stop_executions : App → App
unfolding to_call cancels
stop_executions a = to_call (record a { stopping = true }) (cancels a.executions runner_shutdown)

unfoldable pub finish : App → Bytes → App
unfolding to_call cancel_found lookup delete
finish a id =
    to_call (record a { executions = delete id a.executions })
      (cancel_found (lookup id a.executions) canceled)

-- `executionWG.Done()`
unfoldable pub wait_group_done : App → App
wait_group_done a = record a { running = a.running - 1 }

-- What `acceptOffer` decides while it holds the mutex: nothing to do, to reject the offer as
-- `runner_busy`, or to ask for the job under a new context.
pub data Decision : Type 0 where
  ignore reject_busy : Decision
  ask : ℕ → Decision

admit : App → Bytes → Option ℕ → App × Decision
admit a id (some ctx) = (a, ignore)
admit a id none = if leb 1 (length a.executions) then (a, reject_busy) else (
  record a {
    executions = (id, a.next_context) ∷ a.executions;
    next_context = a.next_context + 1;
    running = a.running + 1;
  },
  ask a.next_context,
)

unfoldable pub accept_offer : App → Offer → App × Decision
unfolding admit lookup
accept_offer a offer =
    if a.stopping
    then (a, ignore)
    else admit a offer.attempt_id (lookup offer.attempt_id a.executions)

-- An event of the channel with its payload; `none` is a payload that does not decode.
pub data Event : Type 0 where
  job_offer : Option Offer → Event
  cancel_event : Option Bytes → Event
  revoked : Event
  lease_lost_event : Option Bytes → Event
  unknown : Event

stop_channel : App → Cause → App
unfolding to_call
stop_channel a c = to_call a (of_channel c ∷ [])

unfoldable pub handle_event : App → Event → App × Decision
unfolding stop_channel accept_offer cancel cancel_with cancel_all
handle_event a (job_offer none) = (a, ignore)
handle_event a (job_offer (some offer)) =
    if valid_offer offer then accept_offer a offer else (a, ignore)
handle_event a (cancel_event none) = (a, ignore)
handle_event a (cancel_event (some id)) = (cancel a id, ignore)
handle_event a revoked = (stop_channel (cancel_all a cancellation_requested) runner_revoked, ignore)
handle_event a (lease_lost_event none) = (a, ignore)
handle_event a (lease_lost_event (some id)) = (cancel_with a id lease_lost, ignore)
handle_event a unknown = (a, ignore)

unfoldable pub handle_heartbeat : App → List Bytes → App
unfolding cancel
handle_heartbeat a [] = a
handle_heartbeat a (id ∷ rest) = handle_heartbeat (cancel a id) rest
