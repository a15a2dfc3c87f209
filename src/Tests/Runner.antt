-- ===== src/Tests/Runner.antt =====
-- Tests of the application: schedules with one offer.
use robine_ci.Prelude.{◌≢◌, In, ◌≤◌, ◌≡◌, refl, ap, arith, some, [], ◌∷◌, length}
use robine_ci.Prelude.Bytes.{codes, bytes_eq}
use robine_ci.Offer.{valid_offer}
use robine_ci.Application.{
  App, Cause, ignore, reject_busy, new_app, accept_offer, active_attempt_ids, stop_executions,
  wait_group_done, cancel_context, of_context, make_call, to_call, cancels, cancel_with,
  handle_event, job_offer,
}
use robine_ci.Application.World.{asking, refused, Task, World, Step, Reach, moved}
use robine_ci.Application.Safety.{live, one_execution, wait_group_zero, accept_offer_again}
use robine_ci.Application.Causes.{context_not_released}
use robine_ci.Application.Drain.{IsReached, stop_reaches_all}
use robine_ci.Tests.Data.{first_offer, offer_named}

abbrev offered : App
offered = (handle_event new_app (job_offer (some first_offer))).0

abbrev asker : Task
asker = record { attempt_id = codes "a1"; context = 0; phase = asking }

abbrev waiting : World
waiting = record { app = offered; tasks = asker ∷ [] }

waiting-Reach : Reach waiting
unfolding handle_event valid_offer bytes_eq
waiting-Reach = Reach.next Reach.here (Step.event (job_offer (some first_offer)))

one_execution_example : (live waiting.tasks ≤ 1) × (length (active_attempt_ids waiting.app) ≤ 1)
one_execution_example = one_execution waiting-Reach

abbrev declined : World
declined = record { app = wait_group_done offered; tasks = moved asker refused ∷ [] }

declined-Reach : Reach declined
declined-Reach = Reach.next waiting-Reach (Step.not_accepted [] [] asker refl refl)

wait_group_zero_example : live declined.tasks ≡ 0
unfolding wait_group_done handle_event valid_offer bytes_eq
wait_group_zero_example = wait_group_zero declined-Reach refl

abbrev stopped : World
stopped = record { app = stop_executions offered; tasks = asker ∷ [] }

stopped-Reach : Reach stopped
stopped-Reach = Reach.next waiting-Reach Step.stop

-- After the collected call is made the context is cancelled.
abbrev cancelled : World
cancelled = record {
  app = make_call (record stopped.app { pending = [] }) (of_context 0 Cause.runner_shutdown);
  tasks = asker ∷ [];
}

cancelled-Reach : Reach cancelled
unfolding stop_executions handle_event valid_offer bytes_eq to_call cancels
cancelled-Reach =
    Reach.next stopped-Reach (Step.call [] [] (of_context 0 Cause.runner_shutdown) refl)

stop_reaches_all_example : IsReached cancelled.app 0
unfolding stop_executions handle_event valid_offer bytes_eq to_call make_call cancel_context
stop_reaches_all_example = stop_reaches_all [] [] asker cancelled-Reach refl refl (λ e. cc)

context_not_released_example :
    (cancelled.app.cause 0 ≢ some Cause.canceled)
    × (In (of_context 0 Cause.canceled) cancelled.app.pending → ⊥)
context_not_released_example = context_not_released [] [] asker cancelled-Reach refl (λ e. cc)

cancelled_cause : cancelled.app.cause 0 ≡ some Cause.runner_shutdown
unfolding stop_executions handle_event valid_offer bytes_eq to_call make_call cancel_context
cancelled_cause = refl

-- A lost lease that is told between the shutdown and the calls can come first.
abbrev lost_first : World
lost_first = record stopped { app = cancel_with stopped.app (codes "a1") Cause.lease_lost }

lost_first_pending :
    lost_first.app.pending ≡ of_context 0 Cause.runner_shutdown ∷ of_context 0 Cause.lease_lost ∷ []
unfolding stop_executions handle_event valid_offer bytes_eq to_call cancels cancel_with
lost_first_pending = refl

accept_offer_again_example :
    (accept_offer (accept_offer new_app first_offer).0 first_offer
      ≡ ((accept_offer new_app first_offer).0, ignore))
    × (accept_offer (accept_offer new_app first_offer).0 (offer_named (codes "a22"))
        ≡ ((accept_offer new_app first_offer).0, reject_busy))
unfolding accept_offer
accept_offer_again_example =
    accept_offer_again new_app (accept_offer new_app first_offer).0 first_offer
      (offer_named (codes "a22")) 0 refl (λ e. omega (arith, ap length e))
