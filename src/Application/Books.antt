-- ===== src/Application/Books.antt =====
-- What the operations of the application do to its map of executions and its wait group.
use robine_ci.Prelude.{
  ℕ, suc, ◌<◌, ◌≡◌, refl, ap, ◌∙◌, Bool, true, false, Option, none, some, List, [], ◌∷◌, arith,
  length, if◌then◌else◌, Bool-cases, leb, inl, inr,
}
use robine_ci.Prelude.Bytes.{Bytes}
use robine_ci.Offer.{Offer, valid_offer}
use robine_ci.Application.{
  App, Cause, Decision, ignore, reject_busy, ask, Event, job_offer, handle_event, handle_heartbeat,
  Call, of_context, of_channel, to_call, make_call, cancel_context, cancel, cancel_with,
  accept_offer, lookup, admit,
}
use robine_ci.Application.World.{attempt_of}

-- Cancelling contexts, and noting the calls to be made, leaves the bookkeeping alone.
pub record SameBooks (a b : App) : Type 0 where
  pub executions : b.executions ≡ a.executions
  pub running : b.running ≡ a.running
  pub stopping : b.stopping ≡ a.stopping

pub to_call-SameBooks : (a : App) (calls : List Call) → SameBooks a (to_call a calls)
unfolding to_call
to_call-SameBooks a calls = record { executions = refl; running = refl; stopping = refl }

cancel_with-SameBooks : (a : App) (id : Bytes) (c : Cause) → SameBooks a (cancel_with a id c)
unfolding cancel_with
cancel_with-SameBooks a id c = to_call-SameBooks a _

pub make_call-SameBooks : (a : App) (x : Call) → SameBooks a (make_call a x)
unfolding make_call cancel_context
make_call-SameBooks a (of_context ctx c) = record {
  executions = refl;
  running = refl;
  stopping = refl;
}
make_call-SameBooks a (of_channel c) = record { executions = refl; running = refl; stopping = refl }

pub heartbeat-SameBooks : (ids : List Bytes) (a : App) → SameBooks a (handle_heartbeat a ids)
unfolding handle_heartbeat cancel
heartbeat-SameBooks [] a = record { executions = refl; running = refl; stopping = refl }
heartbeat-SameBooks (id ∷ ids) a =
    let one = cancel_with-SameBooks a id Cause.cancellation_requested in
    let ih = heartbeat-SameBooks ids (cancel a id) in
    record {
      executions = ih.executions ∙ one.executions;
      running = ih.running ∙ one.running;
      stopping = ih.stopping ∙ one.stopping;
    }

-- What an event does to the books: nothing, or one more execution where there was none.
pub data Taken (a : App) (id : Bytes) : App → Decision → Type 0 where
  kept : {b : App} → SameBooks a b → Taken a id b ignore
  busy : Taken a id a reject_busy
  took :
      {b : App} {ctx : ℕ}
      → a.stopping ≡ false
      → a.executions ≡ []
      → b.executions ≡ (id, ctx) ∷ []
      → b.running ≡ suc a.running
      → b.stopping ≡ a.stopping
      → Taken a id b (ask ctx)

SameBooks-refl : (a : App) → SameBooks a a
SameBooks-refl a = record { executions = refl; running = refl; stopping = refl }

no_entries : (m : List (Bytes × ℕ)) → leb 1 (length m) ≡ false → m ≡ []
no_entries [] h = refl
no_entries (e ∷ m) h = absurd (omega (arith, pos (length m) h))
  where
    pos : (n : ℕ) → leb 1 (suc n) ≡ false → n < n
    pos n h = ground arith

admit-Taken :
    (a : App) (id : Bytes) (found : Option ℕ)
    → a.stopping ≡ false
    → Taken a id (admit a id found).0 (admit a id found).1
unfolding admit
admit-Taken a id (some ctx) h = kept (SameBooks-refl a)
admit-Taken a id none h = elim (Bool-cases (leb 1 (length a.executions))) [
  | inl e ↦ rw e busy
  | inr e ↦
      let empty = no_entries a.executions e in
      rw e (took h empty (ap (◌∷◌ (id, a.next_context)) empty) (omega arith) refl)
]

gate-Taken :
    (a : App) (id : Bytes) (b : Bool) (x : App × Decision)
    → (b ≡ false → Taken a id x.0 x.1)
    → Taken a id (if b then (a, ignore) else x).0 (if b then (a, ignore) else x).1
gate-Taken a id true x rest = kept (SameBooks-refl a)
gate-Taken a id false x rest = rest refl

pub accept_offer-Taken :
    (a : App) (offer : Offer)
    → Taken a offer.attempt_id (accept_offer a offer).0 (accept_offer a offer).1
unfolding accept_offer
accept_offer-Taken a offer =
    gate-Taken a offer.attempt_id a.stopping _
      (admit-Taken a offer.attempt_id (lookup offer.attempt_id a.executions))

pub handle_event-Taken :
    (a : App) (e : Event) → Taken a (attempt_of e) (handle_event a e).0 (handle_event a e).1
unfolding handle_event
handle_event-Taken a (job_offer none) = kept (SameBooks-refl a)
handle_event-Taken a (job_offer (some offer)) = elim (Bool-cases (valid_offer offer)) [
  | inl e ↦ rw e (accept_offer-Taken a offer)
  | inr e ↦ rw e (kept (SameBooks-refl a))
]
handle_event-Taken a (Event.cancel_event none) = kept (SameBooks-refl a)
handle_event-Taken a (Event.cancel_event (some id)) =
    kept (cancel_with-SameBooks a id Cause.cancellation_requested)
handle_event-Taken a Event.revoked =
    kept (unfold to_call in record { executions = refl; running = refl; stopping = refl })
handle_event-Taken a (Event.lease_lost_event none) = kept (SameBooks-refl a)
handle_event-Taken a (Event.lease_lost_event (some id)) =
    kept (cancel_with-SameBooks a id Cause.lease_lost)
handle_event-Taken a Event.unknown = kept (SameBooks-refl a)
