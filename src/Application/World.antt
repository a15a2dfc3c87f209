-- ===== src/Application/World.antt =====
-- The goroutines of runner.go: `acceptOffer` gives up the mutex while it waits for the reply to
-- `job_accept`, the execution runs in a goroutine of its own, and events, heartbeats and the shutdown
-- of `Run` come in between. One step is what one goroutine does under the mutex, one call on the wait
-- group, or one call of a cancel function that a goroutine read under the mutex before; a schedule is
-- any sequence of steps. The pending calls may be made in any order, also those of one goroutine, and
-- a goroutine need not have made its own before it goes on: this allows every schedule of the code and
-- some more. `heartbeat` takes any part of the list, so that other steps may come between the ids.
use robine_ci.Prelude.{ℕ, ◌≡◌, some, List, [], ◌∷◌, ◌++◌}
use robine_ci.Prelude.Bytes.{Bytes}
use robine_ci.Application.{
  App, new_app, Decision, ignore, reject_busy, ask, Event, handle_event, handle_heartbeat,
  stop_executions, finish, wait_group_done, Call, make_call,
}

-- Where a goroutine stands that was given a context: it waits for the reply to `job_accept`; it was
-- refused, has called `executionWG.Done` and goes on to `finish`; it runs the job; it has finished the
-- job and goes on to the deferred `executionWG.Done`.
pub data Phase : Type 0 where
  asking refused executing finished : Phase

pub record Task : Type 0 where
  pub attempt_id : Bytes
  pub context : ℕ
  pub phase : Phase

pub record World : Type 0 where
  pub app : App
  pub tasks : List Task

abbrev pub start : World
start = record { app = new_app; tasks = [] }

-- The goroutine that a decision leaves behind. One that only rejects an offer keeps nothing.
abbrev pub spawned : Decision → Bytes → List Task
spawned ignore id = []
spawned reject_busy id = []
spawned (ask ctx) id = record { attempt_id = id; context = ctx; phase = asking } ∷ []

-- The attempt that an event's goroutine would run.
abbrev pub attempt_of : Event → Bytes
attempt_of (Event.job_offer (some offer)) = offer.attempt_id
attempt_of _ = []

abbrev pub event_app : App → Event → App
event_app a e = (handle_event a e).0

abbrev pub moved : Task → Phase → Task
moved t p = record t { phase = p }

pub data Step (w : World) : World → Type 0 where
  event :
      (e : Event)
      → Step w (record {
        app = (handle_event w.app e).0;
        tasks = spawned (handle_event w.app e).1 (attempt_of e) ++ w.tasks;
      })
  heartbeat : (ids : List Bytes) → Step w (record w { app = handle_heartbeat w.app ids })
  stop : Step w (record w { app = stop_executions w.app })
  call :
      (before after : List Call) (x : Call)
      → w.app.pending ≡ before ++ x ∷ after
      → Step w (record w { app = make_call (record w.app { pending = before ++ after }) x })
  accepted :
      (before after : List Task) (t : Task)
      → w.tasks ≡ before ++ t ∷ after
      → t.phase ≡ asking
      → Step w (record w { tasks = before ++ moved t executing ∷ after })
  not_accepted :
      (before after : List Task) (t : Task)
      → w.tasks ≡ before ++ t ∷ after
      → t.phase ≡ asking
      → Step w (record { app = wait_group_done w.app; tasks = before ++ moved t refused ∷ after })
  give_up :
      (before after : List Task) (t : Task)
      → w.tasks ≡ before ++ t ∷ after
      → t.phase ≡ refused
      → Step w (record { app = finish w.app t.attempt_id; tasks = before ++ after })
  complete :
      (before after : List Task) (t : Task)
      → w.tasks ≡ before ++ t ∷ after
      → t.phase ≡ executing
      → Step w
          (record { app = finish w.app t.attempt_id; tasks = before ++ moved t finished ∷ after })
  leave :
      (before after : List Task) (t : Task)
      → w.tasks ≡ before ++ t ∷ after
      → t.phase ≡ finished
      → Step w (record { app = wait_group_done w.app; tasks = before ++ after })

pub data Reach : World → Type 0 where
  here : Reach start
  next : {w v : World} → Reach w → Step w v → Reach v
