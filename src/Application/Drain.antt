-- ===== src/Application/Drain.antt =====
-- After `stopExecutions` no execution is left running with a live context, once the calls of the
-- cancel functions that were collected are made.
use robine_ci.Prelude.{
  In-append_left, In-append_right, In-append_cases, ℕ, ◌≡◌, ◌≢◌, refl, sym, ap, ◌∙◌, true, none,
  some, List, [], ◌∷◌, ◌++◌, arith, Option-cases, Bool-cases, inl, inr, ◌⊎◌, In,
}
use mathlib.Core.Bool.{false≢true}
use mathlib.Core.Path.{subst}
use robine_ci.Prelude.Bytes.{Bytes, bytes_eq}
use robine_ci.Offer.{Offer, valid_offer}
use robine_ci.Application.{
  App, Cause, Call, of_context, of_channel, Decision, Event, job_offer, handle_event,
  handle_heartbeat, stop_executions, finish, wait_group_done, cancel_context, cancel, cancel_with,
  cancels, accept_offer, to_call, make_call, delete,
}
use robine_ci.Application.Books.{
  Taken, kept, busy, took, handle_event-Taken, heartbeat-SameBooks, make_call-SameBooks,
}
use robine_ci.Application.Invariant.{working-stored}
use robine_ci.Application.World.{finished, Task, World, Step, Reach}

-- The context is cancelled, or some goroutine has still to make the call that cancels it with the
-- runner's shutdown.
abbrev pub IsReached : App → ℕ → Type 0
IsReached a ctx =
    ((c : Cause) × (a.cause ctx ≡ some c)) ⊎ In (of_context ctx Cause.runner_shutdown) a.pending

abbrev Onward : App → App → Type 0
Onward a b = (ctx : ℕ) → IsReached a ctx → IsReached b ctx

-- What only adds calls to be made onward contexts reached.
to_call-Onward :
    (a b : App) (calls : List Call)
    → a.cause ≡ b.cause
    → a.pending ≡ b.pending
    → Onward a (to_call b calls)
unfolding to_call
to_call-Onward a b calls causes same ctx (inl (c, e)) = inl (c, ap (λ f. f ctx) (sym causes) ∙ e)
to_call-Onward a b calls causes same ctx (inr at) =
    inr (In-append_left _ b.pending calls (rw (sym same) at))

cancel_with-Onward : (a : App) (id : Bytes) (c : Cause) → Onward a (cancel_with a id c)
unfolding cancel_with
cancel_with-Onward a id c = to_call-Onward a a _ refl refl

heartbeat-Onward : (ids : List Bytes) (a : App) → Onward a (handle_heartbeat a ids)
unfolding handle_heartbeat cancel
heartbeat-Onward [] a ctx h = h
heartbeat-Onward (id ∷ ids) a ctx h =
    heartbeat-Onward ids (cancel a id) ctx
      (cancel_with-Onward a id Cause.cancellation_requested ctx h)

finish-Onward : (a : App) (id : Bytes) → Onward a (finish a id)
unfolding finish
finish-Onward a id = to_call-Onward a (record a { executions = delete id a.executions }) _ refl refl

accept_offer-causes : (a : App) (offer : Offer) → (accept_offer a offer).0.cause ≡ a.cause
unfolding accept_offer
accept_offer-causes a offer = ground arith

accept_offer-pending : (a : App) (offer : Offer) → (accept_offer a offer).0.pending ≡ a.pending
unfolding accept_offer
accept_offer-pending a offer = ground arith

accept_offer-Onward : (a : App) (offer : Offer) → Onward a (accept_offer a offer).0
accept_offer-Onward a offer ctx (inl (c, e)) =
    inl (c, ap (λ f. f ctx) (accept_offer-causes a offer) ∙ e)
accept_offer-Onward a offer ctx (inr at) = inr (rw (accept_offer-pending a offer) at)

handle_event-Onward : (a : App) (e : Event) → Onward a (handle_event a e).0
unfolding handle_event
handle_event-Onward a (job_offer none) ctx h = h
handle_event-Onward a (job_offer (some offer)) ctx h = elim (Bool-cases (valid_offer offer)) [
  | inl e ↦ rw e (accept_offer-Onward a offer ctx h)
  | inr e ↦ rw e h
]
handle_event-Onward a (Event.cancel_event none) ctx h = h
handle_event-Onward a (Event.cancel_event (some id)) ctx h =
    cancel_with-Onward a id Cause.cancellation_requested ctx h
handle_event-Onward a Event.revoked ctx h =
    let all = cancels a.executions Cause.cancellation_requested in
    let b = to_call a all in
    to_call-Onward b b _ refl refl ctx (to_call-Onward a a all refl refl ctx h)
handle_event-Onward a (Event.lease_lost_event none) ctx h = h
handle_event-Onward a (Event.lease_lost_event (some id)) ctx h =
    cancel_with-Onward a id Cause.lease_lost ctx h
handle_event-Onward a Event.unknown ctx h = h

cancel_context_hits :
    (a : App) (ctx : ℕ) (c : Cause) → (d : Cause) × ((cancel_context a ctx c).cause ctx ≡ some d)
unfolding cancel_context
cancel_context_hits a ctx c = elim (Option-cases (a.cause ctx)) [
  | inl e ↦ (c, ground (arith, e))
  | inr (d, e) ↦ (d, ground (arith, e))
]

-- A context that is cancelled onward its cause whatever call is made.
make_call-causes :
    (a : App) (x : Call) (ctx : ℕ) (c : Cause)
    → a.cause ctx ≡ some c
    → (make_call a x).cause ctx ≡ some c
unfolding make_call cancel_context
make_call-causes a (of_context n d) ctx c h = ground arith
make_call-causes a (of_channel d) ctx c h = h

make_call-pending : (a : App) (x : Call) → (make_call a x).pending ≡ a.pending
unfolding make_call cancel_context
make_call-pending a (of_context n d) = refl
make_call-pending a (of_channel d) = refl

make_call_hits :
    (a : App) (ctx : ℕ) (x : Call)
    → of_context ctx Cause.runner_shutdown ≡ x
    → (d : Cause) × ((make_call a x).cause ctx ≡ some d)
make_call_hits a ctx x e =
    subst (λ y. (d : Cause) × ((make_call a y).cause ctx ≡ some d)) e
      (unfold make_call in cancel_context_hits a ctx Cause.runner_shutdown)

-- A call that is made leaves the other calls to be made.
make_call-Onward :
    (a : App) (before after : List Call) (x : Call)
    → a.pending ≡ before ++ x ∷ after
    → Onward a (make_call (record a { pending = before ++ after }) x)
make_call-Onward a before after x at ctx (inl (c, e)) =
    inl (c, make_call-causes (record a { pending = before ++ after }) x ctx c e)
make_call-Onward a before after x at ctx (inr m) =
    let b = record a { pending = before ++ after } in
    let k = of_context ctx Cause.runner_shutdown in
    let there = In-append_cases k before (x ∷ after) (subst (In k) at m) in
    let rest = make_call-pending b x in
    elim there [
      | inl l ↦ inr (rw rest (In-append_left k before after l))
      | inr (inl e) ↦ inl (make_call_hits b ctx x e)
      | inr (inr r) ↦ inr (rw rest (In-append_right k before after r))
    ]

-- While the runner stops, the context of every execution in the map is cancelled or about to be.
abbrev pub Drained : App → Type 0
Drained a = a.stopping ≡ true → (id : Bytes) (ctx : ℕ) → In (id, ctx) a.executions → IsReached a ctx

abbrev Fewer : App → App → Type 0
Fewer a b = (id : Bytes) (ctx : ℕ) → In (id, ctx) b.executions → In (id, ctx) a.executions

Drained-mono :
    (a b : App) → Fewer a b → b.stopping ≡ a.stopping → Onward a b → Drained a → Drained b
Drained-mono a b fewer same onward drained stops id ctx at =
    onward ctx (drained (sym same ∙ stops) id ctx (fewer id ctx at))

same_executions : (a b : App) → b.executions ≡ a.executions → Fewer a b
same_executions a b e id ctx at = rw e at at

cancels_all :
    (m : List (Bytes × ℕ)) (c : Cause) (id : Bytes) (ctx : ℕ)
    → In (id, ctx) m
    → In (of_context ctx c) (cancels m c)
unfolding cancels
cancels_all [] c id ctx at = absurd at
cancels_all ((j, n) ∷ m) c id ctx (inl e) = inl (ap (λ x. of_context x.1 c) e)
cancels_all ((j, n) ∷ m) c id ctx (inr at) = inr (cancels_all m c id ctx at)

stop_executions-Drained : (a : App) → Drained (stop_executions a)
unfolding stop_executions to_call
stop_executions-Drained a stops id ctx at =
    inr (In-append_right _ a.pending _ (cancels_all a.executions Cause.runner_shutdown id ctx at))

delete-In : (id : Bytes) (m : List (Bytes × ℕ)) (e : Bytes × ℕ) → In e (delete id m) → In e m
unfolding delete
delete-In id [] e at = at
delete-In id ((j, ctx) ∷ m) e at = elim (Bool-cases (bytes_eq j id)) [
  | inl hit ↦ inr (delete-In id m e (rw (hit, delete) at at))
  | inr miss ↦
      let at' : In e ((j, ctx) ∷ delete id m) = rw (miss, delete) at at in
      elim at' [ inl head ↦ inl head | inr tail ↦ inr (delete-In id m e tail) ]
]

finish-Fewer : (a : App) (id : Bytes) → Fewer a (finish a id)
unfolding finish to_call
finish-Fewer a id j ctx at =
    let e : (finish a id).executions ≡ delete id a.executions = ground arith in
    delete-In id a.executions (j, ctx) (rw e at at)

finish-stopping : (a : App) (id : Bytes) → (finish a id).stopping ≡ a.stopping
unfolding finish to_call
finish-stopping a id = refl

Taken-Drained :
    {a b : App} {id : Bytes} {d : Decision} → Drained a → Onward a b → Taken a id b d → Drained b
Taken-Drained {a} {b} drained onward (kept same) =
    Drained-mono a b (same_executions a b same.executions) same.stopping onward drained
Taken-Drained drained onward busy = drained
Taken-Drained drained onward (took open_ empty one more same) =
    λ stops. absurd (false≢true (sym open_ ∙ sym same ∙ stops))

finish-Drained : (a : App) (t : Task) → Drained a → Drained (finish a t.attempt_id)
finish-Drained a t =
    Drained-mono a (finish a t.attempt_id) (finish-Fewer a t.attempt_id)
      (finish-stopping a t.attempt_id) (finish-Onward a t.attempt_id)

Step-Drained : {w v : World} → Drained w.app → Step w v → Drained v.app
Step-Drained {w} drained (Step.event e) =
    Taken-Drained drained (handle_event-Onward w.app e) (handle_event-Taken w.app e)
Step-Drained {w} drained (Step.heartbeat ids) =
    let same = heartbeat-SameBooks ids w.app in
    Drained-mono w.app (handle_heartbeat w.app ids)
      (same_executions w.app (handle_heartbeat w.app ids) same.executions) same.stopping
      (heartbeat-Onward ids w.app) drained
Step-Drained {w} drained Step.stop = stop_executions-Drained w.app
Step-Drained {w} drained (Step.call before after x at) =
    let b = record w.app { pending = before ++ after } in
    let same = make_call-SameBooks b x in
    Drained-mono w.app (make_call b x) (same_executions w.app (make_call b x) same.executions)
      same.stopping (make_call-Onward w.app before after x at) drained
Step-Drained drained (Step.accepted before after t at phase) = drained
Step-Drained drained (Step.not_accepted before after t at phase) = unfold wait_group_done in drained
Step-Drained {w} drained (Step.give_up before after t at phase) = finish-Drained w.app t drained
Step-Drained {w} drained (Step.complete before after t at phase) = finish-Drained w.app t drained
Step-Drained drained (Step.leave before after t at phase) = unfold wait_group_done in drained

Reach-Drained : {w : World} → Reach w → Drained w.app
Reach-Drained Reach.here = λ stops id ctx at. absurd at
Reach-Drained (Reach.next r s) = Step-Drained (Reach-Drained r) s

-- In every reachable state after the runner was told to stop, whatever came in between, each
-- goroutine that has not finished its job has a context that is cancelled, or one that a pending call
-- cancels with the runner's shutdown.
pub stop_reaches_all :
    {w : World} (before after : List Task) (t : Task)
    → Reach w
    → w.app.stopping ≡ true
    → w.tasks ≡ before ++ t ∷ after
    → t.phase ≢ finished
    → IsReached w.app t.context
stop_reaches_all before after t r stops at working =
    Reach-Drained r stops t.attempt_id t.context (working-stored before after t r at working)
