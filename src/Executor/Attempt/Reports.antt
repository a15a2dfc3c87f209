-- ===== src/Executor/Attempt/Reports.antt =====
-- What the server is told of one attempt: the reports that are allowed, and what an action sends.
use robine_ci.Prelude.{
  ℕ, ◌≡◌, refl, sym, ap, ◌∙◌, Bool, true, false, Option, none, some, List, [], ◌∷◌, ◌++◌, inl, inr,
  if◌then◌else◌, append-nil, append_assoc,
}
use robine_ci.Prelude.Bytes.{Bytes, codes}
use robine_ci.Offer.{Offer, is_empty}
use robine_ci.Run.{Run, pure, ◌>>=◌, Preserves}
use robine_ci.Executor.{
  Env, State, Context, AttemptEvent, Outcome, outside, event_of, deliver_event, send,
  send_attempt_event,
}
use robine_ci.Executor.Keeping.{outside-Reported, attempt_events, attempt_events-append, Reported}
use robine_ci.Executor.Steps.Outcomes.{IsFinal}

-- The event names the attempt and the token of the offer.
pub record IsOf (offer : Offer) (sequence : ℕ) (e : AttemptEvent) : Type 0 where
  pub attempt : e.attempt_id ≡ offer.attempt_id
  pub token : e.idempotency_token ≡ offer.idempotency_token
  pub number : e.sequence ≡ sequence

abbrev pub reason_of : Bytes → Option Bytes
reason_of reason = if is_empty reason then none else some reason

-- The ways in which an attempt may be reported: not at all; as failed before it ran; as running; as
-- running and then with a final status.
pub data Report (offer : Offer) : List AttemptEvent → Type 0 where
  silent : Report offer []
  unprepared :
      {e : AttemptEvent}
      → IsOf offer 2 e
      → e.status ≡ codes "failed"
      → e.reason ≡ some (codes "system_failure")
      → Report offer (e ∷ [])
  running : {e : AttemptEvent} → IsOf offer 2 e → e.status ≡ codes "running" → Report offer (e ∷ [])
  done :
      {e f : AttemptEvent} (o : Outcome)
      → IsOf offer 2 e
      → e.status ≡ codes "running"
      → IsOf offer 3 f
      → IsFinal o
      → f.status ≡ o.status
      → f.reason ≡ reason_of o.reason
      → Report offer (e ∷ f ∷ [])

-- The events that an action sends, behind those sent before.
pub record Sends {env : Env} {A : Type 0} (Q : List AttemptEvent → Type 0) (m : Run (State env) A)
    : Type 0 where
  pub at :
      (s : State env)
      → (es : List AttemptEvent) × (attempt_events (m s).1.sent ≡ attempt_events s.sent ++ es)
        × Q es

pub failed-IsFinal : IsFinal (record { status = codes "failed"; reason = codes "system_failure" })
failed-IsFinal = inr (inl (refl, λ e. cc))

-- An action that sends no attempt event.
abbrev pub IsQuiet : {env : Env} {A : Type 0} → Run (State env) A → Type 0
IsQuiet {env} m = (es : List AttemptEvent) → Preserves (Reported {env = env} es) m

module _ {env : Env} {A : Type 0} {Q : List AttemptEvent → Type 0} where
  pub Sends-quiet : (m : Run (State env) A) → IsQuiet m → Q [] → Sends Q m
  Sends-quiet m quiet q = record {
    at = λ s.
        let kept = (quiet (attempt_events s.sent)).at s (record { are = refl }) in
        ([], kept.are ∙ sym (append-nil _), q);
  }

  pub Sends-if :
      (b : Bool) (m n : Run (State env) A) → Sends Q m → Sends Q n → Sends Q (if b then m else n)
  Sends-if true m n sm sn = sm
  Sends-if false m n sm sn = sn

module _ {env : Env} {A B : Type 0} {Q : List AttemptEvent → Type 0} where
  pub Sends-knowing :
      {Post : A → Type 0} (m : Run (State env) A) (f : A → Run (State env) B)
      → IsQuiet m
      → ((s : State env) → Post (m s).0)
      → ((a : A) → Post a → Sends Q (f a))
      → Sends Q (m >>= f)
  unfolding ◌>>=◌
  Sends-knowing m f quiet post later = record {
    at = λ s.
        let kept = ((quiet (attempt_events s.sent)).at s (record { are = refl })).are in
        let (es, e, q) = (later (m s).0 (post s)).at (m s).1 in (es, e ∙ ap (λ l. l ++ es) kept, q);
  }

  pub Sends-after :
      (m : Run (State env) A) (f : A → Run (State env) B)
      → IsQuiet m
      → ((a : A) → Sends Q (f a))
      → Sends Q (m >>= f)
  Sends-after m f quiet later =
      Sends-knowing {Post = λ a. Unit {0}} m f quiet (λ s. tt) (λ a p. later a)

  pub Sends-then :
      (m : Run (State env) A) (f : A → Run (State env) B)
      → Sends Q m
      → ((a : A) → IsQuiet (f a))
      → Sends Q (m >>= f)
  unfolding ◌>>=◌
  Sends-then m f sends quiet = record {
    at = λ s.
        let (es, e, q) = sends.at s in
        let kept =
          (quiet (m s).0 (attempt_events (m s).1.sent)).at (m s).1 (record { are = refl }) in
        (es, kept.are ∙ e, q);
  }

module _ {env : Env} {A : Type 0} {Q : List AttemptEvent → Type 0} where
  -- An attempt event and what follows it: where there is no message id nothing is sent, and what
  -- follows gets an error.
  pub Sends-event :
      (ctx : Context) (offer : Offer) (n : ℕ) (status reason : Bytes)
      (f : Option Bytes → Run (State env) A)
      → ((error : Bytes) → Sends Q (f (some error)))
      → ((e : AttemptEvent)
          → IsOf offer n e
          → e.status ≡ status
          → e.reason ≡ reason_of reason
          → (error : Option Bytes) → Sends (λ es. Q (e ∷ es)) (f error))
      → Sends Q (send_attempt_event ctx offer n status reason >>= f)
  unfolding ◌>>=◌ send_attempt_event deliver_event pure send
  Sends-event ctx offer n status reason f unsent sent =
      Sends-after (outside env.message_id) (λ id. deliver_event ctx offer n status reason id >>= f)
        (λ es. outside-Reported env.message_id)
        (λ id. elim id as (λ k. Sends Q (deliver_event ctx offer n status reason k >>= f)) [
          | none ↦ unsent _
          | some i ↦ delivered i
        ])
    where
      delivered : (id : Bytes) → Sends Q (deliver_event ctx offer n status reason (some id) >>= f)
      delivered id = record {
        at = λ s.
            let (error, w) = env.request ctx (event_of offer n status reason id) s.world in
            let e : AttemptEvent = record {
              attempt_id = offer.attempt_id;
              idempotency_token = offer.idempotency_token;
              message_id = id;
              sequence = n;
              status = status;
              reason = reason_of reason;
            } in
            let (es, same, q) =
              (sent e (record { attempt = refl; token = refl; number = refl }) refl refl error).at
                (record s { world = w; sent = s.sent ++ event_of offer n status reason id ∷ [] }) in
            (
              e ∷ es,
              same
                  ∙ ap (λ l. l ++ es) (attempt_events-append s.sent _)
                  ∙ append_assoc (attempt_events s.sent) _ es,
              q,
            );
      }
