-- ===== src/Executor/Keeping.antt =====
-- What the calls that build the executor's actions keep: the attempt events that were sent, and the
-- numbering of the log events.
use robine_ci.Prelude.{
  ℕ, suc, ◌≡◌, refl, ap, ◌∙◌, Option, none, some, List, [], ◌∷◌, ◌++◌, append-nil,
}
use robine_ci.Prelude.Bytes.{Bytes}
use robine_ci.Prelude.Int.{ℤ}
use robine_ci.Offer.{Offer}
use robine_ci.Run.{Run, ◌>>=◌, Preserves, Preserves-bind, Preserves-pure}
use robine_ci.Executor.{
  Env, State, Request, Context, AttemptEvent, log_event, attempt_event, outside, send,
  next_sequence, send_log, StepLog, terminal_delivery_allowed, send_attempt_event, deliver_event,
}

-- The properties of the state that calls of the environment and log events keep.
pub record Admits {env : Env} (P : State env → Type 0) : Type 1 where
  pub calls :
      {A : Type 0} (call : env.World → A × env.World) → Preserves P (outside {env = env} call)
  pub logs :
      (ctx : Context) (step : StepLog) (status stream : Bytes) (exit : Option ℤ) (duration : ℕ)
      (content : Bytes)
      → Preserves P (send_log {env = env} ctx step status stream exit duration content)

pub Preserves-option :
    {S A B : Type 0} {P : S → Type 0} (o : Option A) (m : A → Run S B) (n : Run S B)
    → ((a : A) → Preserves P (m a))
    → Preserves P n
    → Preserves P (elim o [ some a ↦ m a | none ↦ n ])
Preserves-option (some a) m n km kn = km a
Preserves-option none m n km kn = kn

pub terminal_delivery_allowed-Preserves :
    {env : Env} {P : State env → Type 0}
    → Admits P
    → Preserves P (terminal_delivery_allowed {env = env})
unfolding terminal_delivery_allowed
terminal_delivery_allowed-Preserves {env} admits =
    Preserves-bind _ _ (admits.calls env.context_cause) (λ cause. Preserves-pure _)

-- An attempt event keeps what requests keep.
pub send_attempt_event-Preserves :
    {env : Env} {P : State env → Type 0}
    → Admits P
    → ((ctx : Context) (r : Request) → Preserves P (send {env = env} ctx r))
    → (ctx : Context) (offer : Offer) (n : ℕ) (status reason : Bytes)
    → Preserves P (send_attempt_event {env = env} ctx offer n status reason)
unfolding send_attempt_event deliver_event
send_attempt_event-Preserves {env} {P} admits requests ctx offer n status reason =
    Preserves-bind _ _ (admits.calls env.message_id) (λ id.
      elim id as (λ i. Preserves P (deliver_event {env = env} ctx offer n status reason i)) [
        | none ↦ Preserves-pure _
        | some i ↦ requests ctx _
      ])

-- The attempt events among the requests, and the sequence numbers of the log events.
abbrev pub attempt_events : List Request → List AttemptEvent
attempt_events [] = []
attempt_events (log_event e ∷ rs) = attempt_events rs
attempt_events (attempt_event e ∷ rs) = e ∷ attempt_events rs

abbrev pub log_numbers : List Request → List ℕ
log_numbers [] = []
log_numbers (log_event e ∷ rs) = e.sequence ∷ log_numbers rs
log_numbers (attempt_event e ∷ rs) = log_numbers rs

pub attempt_events-append :
    (rs qs : List Request) → attempt_events (rs ++ qs) ≡ attempt_events rs ++ attempt_events qs
attempt_events-append [] qs = refl
attempt_events-append (log_event e ∷ rs) qs = attempt_events-append rs qs
attempt_events-append (attempt_event e ∷ rs) qs = ap (◌∷◌ e) (attempt_events-append rs qs)

pub log_numbers-append :
    (rs qs : List Request) → log_numbers (rs ++ qs) ≡ log_numbers rs ++ log_numbers qs
log_numbers-append [] qs = refl
log_numbers-append (log_event e ∷ rs) qs = ap (◌∷◌ e.sequence) (log_numbers-append rs qs)
log_numbers-append (attempt_event e ∷ rs) qs = log_numbers-append rs qs

-- 1, 2, …, n
unfoldable pub up_to : ℕ → List ℕ
up_to ℕ.zero = []
up_to (suc n) = up_to n ++ suc n ∷ []

module _ {env : Env} where
  -- The attempt events sent so far are `es`.
  pub record Reported (es : List AttemptEvent) (s : State env) : Type 0 where
    pub are : attempt_events s.sent ≡ es

  -- The log events sent so far are numbered 1, 2, …, without a gap, in the order of sending.
  pub record Numbered (s : State env) : Type 0 where
    pub are : log_numbers s.sent ≡ up_to s.log_sequence

  module _ {es : List AttemptEvent} where
    pub outside-Reported :
        {A : Type 0} (call : env.World → A × env.World)
        → Preserves (Reported es) (outside {env = env} call)
    unfolding outside
    outside-Reported call = record { at = λ s h. record { are = h.are } }

    pub send_log-Reported :
        (ctx : Context) (step : StepLog) (status stream : Bytes) (exit_code : Option ℤ)
        (duration : ℕ) (content : Bytes)
        → Preserves
            (Reported es)
            (send_log {env = env} ctx step status stream exit_code duration content)
    unfolding send_log send next_sequence ◌>>=◌
    send_log-Reported ctx step status stream exit_code duration content = record {
      at = λ s h. record { are = attempt_events-append s.sent _ ∙ append-nil _ ∙ h.are };
    }

  pub outside-Numbered :
      {A : Type 0} (call : env.World → A × env.World)
      → Preserves Numbered (outside {env = env} call)
  unfolding outside
  outside-Numbered call = record { at = λ s h. record { are = h.are } }

  pub send_log-Numbered :
      (ctx : Context) (step : StepLog) (status stream : Bytes) (exit_code : Option ℤ) (duration : ℕ)
      (content : Bytes)
      → Preserves Numbered (send_log {env = env} ctx step status stream exit_code duration content)
  unfolding send_log send next_sequence up_to ◌>>=◌
  send_log-Numbered ctx step status stream exit_code duration content = record {
    at = λ s h. record {
      are = log_numbers-append s.sent _ ∙ ap (λ l. l ++ suc s.log_sequence ∷ []) h.are;
    };
  }

  pub Reported-Admits : (es : List AttemptEvent) → Admits {env = env} (Reported es)
  Reported-Admits es = record { calls = outside-Reported; logs = send_log-Reported }

  pub Numbered-Admits : Admits {env = env} Numbered
  Numbered-Admits = record { calls = outside-Numbered; logs = send_log-Numbered }
