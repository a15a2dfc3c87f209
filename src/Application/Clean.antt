-- ===== src/Application/Clean.antt =====
-- What the operations of the application do to the causes of the contexts in the map.
use robine_ci.Prelude.{
  In-append_cases, ℕ, ◌≤◌, ◌<◌, ◌≡◌, ◌≢◌, refl, sym, ap, ◌∙◌, none, some, Option, List, [], ◌∷◌,
  arith, Bool, true, false, Bool-cases, Option-cases, inl, inr, ◌⊎◌, In, length, leb, if◌then◌else◌,
}
use mathlib.Core.Path.{subst}
use robine_ci.Prelude.Bytes.{Bytes, bytes_eq}
use robine_ci.Offer.{Offer, valid_offer}
use robine_ci.Application.{
  App, Cause, Call, of_context, of_channel, Decision, Event, job_offer, handle_event,
  handle_heartbeat, stop_executions, cancel, cancel_with, cancels, accept_offer, admit, ignore,
  lookup, to_call, cancel_found,
}

-- Contexts are numbered below `next_context`, also those of the calls to be made, and no execution in the
-- map has a context that is cancelled as context.Canceled, or is going to be.
pub record Clean (a : App) : Type 0 where
  pub known : (id : Bytes) (ctx : ℕ) → In (id, ctx) a.executions → ctx < a.next_context
  pub small : (ctx : ℕ) (c : Cause) → In (of_context ctx c) a.pending → ctx < a.next_context
  pub unset : (ctx : ℕ) → a.next_context ≤ ctx → a.cause ctx ≡ none
  pub spared :
      (id : Bytes) (ctx : ℕ) → In (id, ctx) a.executions → a.cause ctx ≢ some Cause.canceled
  pub unasked :
      (id : Bytes) (ctx : ℕ)
      → In (id, ctx) a.executions
      → In (of_context ctx Cause.canceled) a.pending
      → ⊥

-- Calls that cancel contexts of executions in the map, and not as context.Canceled.
record IsMild (a : App) (calls : List Call) : Type 0 where
  stored :
      (ctx : ℕ) (c : Cause) → In (of_context ctx c) calls → (id : Bytes) × In (id, ctx) a.executions
  mild : (ctx : ℕ) → In (of_context ctx Cause.canceled) calls → ⊥

to_call-Clean : (a : App) (calls : List Call) → IsMild a calls → Clean a → Clean (to_call a calls)
unfolding to_call
to_call-Clean a calls m k = record {
  known = k.known;
  small = λ ctx c at. elim (In-append_cases _ a.pending calls at) [
    | inl old ↦ k.small ctx c old
    | inr new ↦ let (id, there) = m.stored ctx c new in k.known id ctx there
  ];
  unset = k.unset;
  spared = k.spared;
  unasked = λ id ctx there at. elim (In-append_cases _ a.pending calls at) [
    | inl old ↦ k.unasked id ctx there old
    | inr new ↦ m.mild ctx new
  ];
}

-- The cause of a call.
abbrev cause_of : Call → Cause
cause_of (of_context ctx c) = c
cause_of (of_channel c) = c

abbrev context_of : Call → ℕ
context_of (of_context ctx c) = ctx
context_of (of_channel c) = 0

cancels-stored :
    (m : List (Bytes × ℕ)) (c : Cause) (ctx : ℕ) (d : Cause)
    → In (of_context ctx d) (cancels m c)
    → ((id : Bytes) × In (id, ctx) m) × (d ≡ c)
unfolding cancels
cancels-stored [] c ctx d at = absurd at
cancels-stored ((id, n) ∷ m) c ctx d (inl e) =
    ((id, inl (ap (λ x. (id, context_of x)) e)), ap cause_of e)
cancels-stored ((id, n) ∷ m) c ctx d (inr at) =
    let ((j, there), same) = cancels-stored m c ctx d at in ((j, inr there), same)

cancels-IsMild : (a : App) (c : Cause) → c ≢ Cause.canceled → IsMild a (cancels a.executions c)
cancels-IsMild a c other = record {
  stored = λ ctx d at. (cancels-stored a.executions c ctx d at).0;
  mild = λ ctx at. other (sym (cancels-stored a.executions c ctx Cause.canceled at).1);
}

lookup-In :
    (id : Bytes) (m : List (Bytes × ℕ)) (ctx : ℕ)
    → lookup id m ≡ some ctx
    → (j : Bytes) × In (j, ctx) m
unfolding lookup
lookup-In id [] ctx e = cc
lookup-In id ((j, n) ∷ m) ctx e = elim (Bool-cases (bytes_eq j id)) [
  | inl hit ↦
      let e' : some n ≡ some ctx = rw (hit, lookup) at e in
      let same : ctx ≡ n = cc in (j, inl (ap (λ x. (j, x)) same))
  | inr miss ↦
      let e' : lookup id m ≡ some ctx = rw (miss, lookup) at e in
      let (k, there) = lookup-In id m ctx e' in (k, inr there)
]

pub cancel_found-stored :
    (id : Bytes) (m : List (Bytes × ℕ)) (c : Cause) (ctx : ℕ) (d : Cause)
    → In (of_context ctx d) (cancel_found (lookup id m) c)
    → ((j : Bytes) × In (j, ctx) m) × (d ≡ c)
unfolding cancel_found
cancel_found-stored id m c ctx d at = elim (Option-cases (lookup id m)) [
  | inl e ↦ absurd (rw (e, cancel_found) at at)
  | inr (n, e) ↦
      let at' : In (of_context ctx d) (of_context n c ∷ []) = rw (e, cancel_found) at at in
      elim at' [
        | inl same ↦
            let found = e ∙ ap some (sym (ap context_of same)) in
            (lookup-In id m ctx found, ap cause_of same)
        | inr nothing ↦ absurd nothing
      ]
]

cancel_with-Clean :
    (a : App) (id : Bytes) (c : Cause) → c ≢ Cause.canceled → Clean a → Clean (cancel_with a id c)
unfolding cancel_with
cancel_with-Clean a id c other = to_call-Clean a _ (record {
  stored = λ ctx d at. (cancel_found-stored id a.executions c ctx d at).0;
  mild = λ ctx at. other (sym (cancel_found-stored id a.executions c ctx Cause.canceled at).1);
})

pub heartbeat-Clean : (ids : List Bytes) (a : App) → Clean a → Clean (handle_heartbeat a ids)
unfolding handle_heartbeat cancel
heartbeat-Clean [] a k = k
heartbeat-Clean (id ∷ ids) a k =
    heartbeat-Clean ids (cancel a id)
      (cancel_with-Clean a id Cause.cancellation_requested (λ e. cc) k)

admit-Clean :
    (a : App) (id : Bytes) (found : Option ℕ)
    → a.executions ≡ [] ⊎ (leb 1 (length a.executions) ≡ true)
    → Clean a
    → Clean (admit a id found).0
unfolding admit
admit-Clean a id (some ctx) empty k = k
admit-Clean a id none (inr busy) k = rw busy k
admit-Clean a id none (inl empty) k =
    let idle : leb 1 (length a.executions) ≡ false = rw empty (ground arith) in
    let new : (j : Bytes) (ctx : ℕ)
        → In (j, ctx) ((id, a.next_context) ∷ a.executions)
        → ctx ≡ a.next_context =
      λ j ctx at. elim at [
        | inl e ↦ ap (λ x. x.1) e
        | inr old ↦ absurd (subst (In (j, ctx)) empty old)
      ] in
    rw idle (record {
      known = λ j ctx at. omega (arith, new j ctx at);
      small = λ ctx c at. omega (arith, k.small ctx c at);
      unset = λ ctx h. k.unset ctx (omega (arith, h));
      spared = λ j ctx at e. some_none (sym e ∙ k.unset ctx (omega (arith, new j ctx at)));
      unasked =
          λ j ctx at asked. absurd (omega (arith, new j ctx at, k.small ctx Cause.canceled asked));
    })
  where
    some_none : {c : Cause} → some c ≡ none → ⊥
    some_none e = cc

empty_or_busy : (m : List (Bytes × ℕ)) → m ≡ [] ⊎ (leb 1 (length m) ≡ true)
empty_or_busy [] = inl refl
empty_or_busy (e ∷ m) = inr (ground arith)

gate-Clean :
    (a : App) (b : Bool) (x : App × Decision)
    → Clean a
    → Clean x.0
    → Clean (if b then (a, ignore) else x).0
gate-Clean a true x k rest = k
gate-Clean a false x k rest = rest

accept_offer-Clean : (a : App) (offer : Offer) → Clean a → Clean (accept_offer a offer).0
unfolding accept_offer
accept_offer-Clean a offer k = gate-Clean a a.stopping _ k (
    admit-Clean a offer.attempt_id (lookup offer.attempt_id a.executions)
      (empty_or_busy a.executions) k)

channel-IsMild : (a : App) (c : Cause) → IsMild a (of_channel c ∷ [])
channel-IsMild a c = record {
  stored = λ ctx d at. elim at [ inl e ↦ absurd (apart e) | inr nothing ↦ absurd nothing ];
  mild = λ ctx at. elim at [ inl e ↦ apart e | inr nothing ↦ nothing ];
}
  where
    apart : {ctx : ℕ} {d e : Cause} → of_context ctx d ≡ of_channel e → ⊥
    apart e = cc

pub handle_event-Clean : (a : App) (e : Event) → Clean a → Clean (handle_event a e).0
unfolding handle_event
handle_event-Clean a (job_offer none) k = k
handle_event-Clean a (job_offer (some offer)) k = elim (Bool-cases (valid_offer offer)) [
  | inl e ↦ rw e (accept_offer-Clean a offer k)
  | inr e ↦ rw e k
]
handle_event-Clean a (Event.cancel_event none) k = k
handle_event-Clean a (Event.cancel_event (some id)) k =
    cancel_with-Clean a id Cause.cancellation_requested (λ e. cc) k
handle_event-Clean a Event.revoked k =
    let all = cancels a.executions Cause.cancellation_requested in
    to_call-Clean (to_call a all) _ (channel-IsMild (to_call a all) _)
      (to_call-Clean a all (cancels-IsMild a Cause.cancellation_requested (λ e. cc)) k)
handle_event-Clean a (Event.lease_lost_event none) k = k
handle_event-Clean a (Event.lease_lost_event (some id)) k =
    cancel_with-Clean a id Cause.lease_lost (λ e. cc) k
handle_event-Clean a Event.unknown k = k

pub stop-Clean : (a : App) → Clean a → Clean (stop_executions a)
unfolding stop_executions
stop-Clean a k =
    let b = record a { stopping = true } in
    to_call-Clean b _ (cancels-IsMild b Cause.runner_shutdown (λ e. cc)) (record {
      known = k.known;
      small = k.small;
      unset = k.unset;
      spared = k.spared;
      unasked = k.unasked;
    })
