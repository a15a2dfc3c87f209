-- ===== src/Channel/Sessions/Held.antt =====
-- Whatever the schedule, who is registered for a reply is a goroutine that is still in Request.
use mathlib.Core.Path.{subst}
use robine_ci.Prelude.{
  ℕ, ◌≤◌, ◌≡◌, ◌≢◌, ap, ◌⊎◌, false, Option, none, some, List, [], ◌∷◌, ◌++◌, In, arith, Bool-cases,
  inl, inr,
}
use robine_ci.Prelude.Bytes.{Bytes, codes, bytes_eq, bytes_eq_iff}
use robine_ci.Offer.{Json}
use robine_ci.Channel.{
  Client, new_client, Frame, Reply, without, take_reference, register, remove_pending, handle_frame,
  handle_decoded, handle_reply, runner_topic, decode_frame,
}
use robine_ci.Channel.Sessions.{
  new_wire, connect, Phase, waiting, connected, numbered, writing, awaiting, World, start,
  read_frame, Step, Reach, here, next, open_session, end_session, frame, request, found, referenced,
  stale, registered, written, not_written, answered, connection_lost, cancelled, given_up,
}
use robine_ci.Channel.Sessions.Moves.{copies, waiters}
use robine_ci.Channel.Sessions.Once.{disconnect-client, Inv, Reach-Inv}

-- A goroutine that waits, or is about to wait, for a reply with that reference on that channel.
abbrev pub Holds : Bytes → ℕ → Phase → Type 0
Holds r y waiting = ⊥
Holds r y (connected conn lost) = ⊥
Holds r y (numbered conn lost reference) = ⊥
Holds r y (writing conn lost reference waiter) = (r ≡ reference) × (y ≡ waiter)
Holds r y (awaiting lost reference waiter) = (r ≡ reference) × (y ≡ waiter)

abbrev pub Held : Bytes → ℕ → List Phase → Type 0
Held r y [] = ⊥
Held r y (p ∷ ps) = Holds r y p ⊎ Held r y ps

-- What a list of goroutines holds when one of them is taken out, put back, or exchanged.
module _ (r : Bytes) (y : ℕ) where
  Held-out :
      (before after : List Phase) (p : Phase)
      → Held r y (before ++ p ∷ after)
      → Holds r y p ⊎ Held r y (before ++ after)
  Held-out [] after p h = h
  Held-out (q ∷ before) after p (inl h) = inr (inl h)
  Held-out (q ∷ before) after p (inr h) = elim (Held-out before after p h) [
    | inl k ↦ inl k
    | inr k ↦ inr (inr k)
  ]

  Held-put :
      (before after : List Phase) (p : Phase)
      → Holds r y p ⊎ Held r y (before ++ after)
      → Held r y (before ++ p ∷ after)
  Held-put [] after p h = h
  Held-put (q ∷ before) after p (inl h) = inr (Held-put before after p (inl h))
  Held-put (q ∷ before) after p (inr (inl h)) = inl h
  Held-put (q ∷ before) after p (inr (inr h)) = inr (Held-put before after p (inr h))

  Held-change :
      (before after : List Phase) (p q : Phase)
      → (Holds r y p → Holds r y q)
      → Held r y (before ++ p ∷ after)
      → Held r y (before ++ q ∷ after)
  Held-change before after p q change h =
      Held-put before after q
        (elim (Held-out before after p h) [ inl k ↦ inl (change k) | inr k ↦ inr k ])

other_key : (j r k : Bytes) → bytes_eq j r ≡ false → k ≡ j → k ≢ r
other_key j r k e named is = ground (arith, bytes_eq_iff j r)

In-without :
    (r k : Bytes) (y : ℕ) (pending : List (Bytes × ℕ))
    → In (k, y) (without r pending)
    → (k ≢ r) × In (k, y) pending
unfolding without
In-without r k y [] m = absurd m
In-without r k y ((j, z) ∷ pending) m = elim (Bool-cases (bytes_eq j r)) [
  | inl e ↦
      let m' : In (k, y) (without r pending) = rw e at m in
      let (other, there) = In-without r k y pending m' in (other, inr there)
  | inr e ↦
      let m' : ◌≡◌ {A = Bytes × ℕ} (k, y) (j, z) ⊎ In (k, y) (without r pending) = rw e at m in
      elim m' [
        | inl same ↦ (other_key j r k e (ap (λ (p : Bytes × ℕ). p.0) same), inl same)
        | inr later ↦ let (other, there) = In-without r k y pending later in (other, inr there)
      ]
]

-- A frame takes at most one entry away.
module _ (decode_parts : Bytes → Option (List Json)) (decode_reply : Json → Option Reply) where
  handle_reply-In :
      (p : Bytes × ℕ) (r : Bytes) (reply : Option Reply) (c : Client)
      → In p (handle_reply r reply c).1.pending
      → In p c.pending
  unfolding handle_reply remove_pending
  handle_reply-In p r none c m = m
  handle_reply-In (k, y) r (some reply) c m = (In-without r k y c.pending m).1

  handle_decoded-In :
      (p : Bytes × ℕ) (read : Option Frame) (c : Client)
      → In p (handle_decoded decode_reply read c).1.pending
      → In p c.pending
  unfolding handle_decoded
  handle_decoded-In p none c m = m
  handle_decoded-In p (some decoded) c m = elim (Bool-cases (bytes_eq decoded.topic runner_topic)) [
    | inr e ↦ rw e at m
    | inl e ↦ elim (Bool-cases (bytes_eq decoded.event (codes "phx_reply"))) [
      | inl h ↦
          handle_reply-In p decoded.reference (decode_reply decoded.payload) c (rw (e, h) at m)
      | inr h ↦ rw (e, h) at m
    ]
  ]

  handle_frame-In :
      (p : Bytes × ℕ) (payload : Bytes) (c : Client)
      → In p (handle_frame decode_parts decode_reply payload c).1.pending
      → In p c.pending
  unfolding handle_frame
  handle_frame-In p payload c m = handle_decoded-In p (decode_frame decode_parts payload) c m

In-waiters :
    (k : Bytes) (y : ℕ) (pending : List (Bytes × ℕ)) → In (k, y) pending → 1 ≤ waiters y pending
In-waiters k y [] m = absurd m
In-waiters k y ((j, z) ∷ pending) (inl e) = ground (arith, ap (λ (p : Bytes × ℕ). p.1) e)
In-waiters k y ((j, z) ∷ pending) (inr m) = ground (arith, In-waiters k y pending m)

In-copies : (y : ℕ) (mail : List ℕ) → In y mail → 1 ≤ copies y mail
In-copies y [] m = absurd m
In-copies y (z ∷ mail) (inl e) = ground (arith, e)
In-copies y (z ∷ mail) (inr m) = ground (arith, In-copies y mail m)

abbrev pub AllHeld : World → Type 0
AllHeld w = (r : Bytes) (y : ℕ) → In (r, y) w.wire.client.pending → Held r y w.requests

-- What a step does to the goroutines and to those that are registered.
module _ (decode_parts : Bytes → Option (List Json)) (decode_reply : Json → Option Reply) where
  leaves :
      (reference : Bytes) (w : World) (before after : List Phase) (p : Phase) (rest : List Phase)
      → w.requests ≡ before ++ p ∷ after
      → ((r : Bytes) (y : ℕ) → r ≢ reference → Holds r y p → Held r y rest)
      → ((r : Bytes) (y : ℕ) → Held r y (before ++ after) → Held r y rest)
      → AllHeld w
      → (r : Bytes) (y : ℕ) → In (r, y) (remove_pending reference w.wire.client).pending
      → Held r y rest
  unfolding remove_pending
  leaves reference w before after p rest at mine others all r y m =
      let (other, there) = In-without reference r y w.wire.client.pending m in
      elim (Held-out r y before after p (subst (Held r y) at (all r y there))) [
        | inl k ↦ mine r y other k
        | inr k ↦ others r y k
      ]

  Step-AllHeld : {w v : World} → Step decode_parts decode_reply w v → Inv w → AllHeld w → AllHeld v
  unfolding connect take_reference read_frame register
  Step-AllHeld (open_session down) i all = all
  Step-AllHeld {w} (end_session conn up) i all = λ r y m.
      all r y (subst (λ (c : Client). In (r, y) c.pending) (disconnect-client conn w.wire) m)
  Step-AllHeld {w} (frame conn payload up) i all =
      λ r y m. all r y (handle_frame-In decode_parts decode_reply (r, y) payload w.wire.client m)
  Step-AllHeld request i all = λ r y m. inr (all r y m)
  Step-AllHeld {w} (found before after conn at has) i all = λ r y m.
      Held-change r y before after waiting (connected conn w.wire.lost) (λ h. h)
        (subst (Held r y) at (all r y m))
  Step-AllHeld {w} (referenced before after conn lost at) i all = λ r y m.
      Held-change r y before after (connected conn lost)
        (numbered conn lost (take_reference w.wire.client).0) (λ h. h)
        (subst (Held r y) at (all r y m))
  Step-AllHeld {w} (stale before after conn lost reference at gone) i all = λ r y m.
      Held-change r y before after (numbered conn lost reference) waiting (λ h. h)
        (subst (Held r y) at (all r y m))
  Step-AllHeld {w} (registered before after conn lost reference at has) i all = λ r y m.
      let mine = writing conn lost reference w.next_waiter in
      Held-put r y before after mine (elim m [
        | inl e ↦ inl (ap (λ (p : Bytes × ℕ). p.0) e, ap (λ (p : Bytes × ℕ). p.1) e)
        | inr later ↦
            let (other, there) = In-without reference r y w.wire.client.pending later in
            elim (Held-out r y before after (numbered conn lost reference)
              (subst (Held r y) at (all r y there))) [ inl k ↦ absurd k | inr k ↦ inr k ]
      ])
  Step-AllHeld {w} (written before after conn lost reference waiter at) i all = λ r y m.
      Held-change r y before after (writing conn lost reference waiter)
        (awaiting lost reference waiter) (λ h. h) (subst (Held r y) at (all r y m))
  Step-AllHeld {w} (not_written before after conn lost reference waiter at) i all =
      leaves reference w before after (writing conn lost reference waiter) _ at
        (λ r y other h. absurd (other h.0)) (λ r y h. Held-put r y before after waiting (inr h)) all
  Step-AllHeld {w} (answered before after lost reference waiter at has) i all = λ r y m.
      elim (Held-out r y before after (awaiting lost reference waiter)
        (subst (Held r y) at (all r y m))) [
          | inl h ↦
              let there =
                subst (λ x. 1 ≤ waiters x w.wire.client.pending) h.1
                  (In-waiters r y w.wire.client.pending m) in
              absurd (omega (arith, i.once.single waiter, there, In-copies waiter w.mail has))
          | inr h ↦ h
        ]
  Step-AllHeld {w} (connection_lost before after lost reference waiter at gone) i all =
      leaves reference w before after (awaiting lost reference waiter) _ at
        (λ r y other h. absurd (other h.0)) (λ r y h. Held-put r y before after waiting (inr h)) all
  Step-AllHeld {w} (cancelled before after lost reference waiter at) i all =
      leaves reference w before after (awaiting lost reference waiter) _ at
        (λ r y other h. absurd (other h.0)) (λ r y h. h) all
  Step-AllHeld {w} (given_up before after at) i all = λ r y m.
      elim (Held-out r y before after waiting (subst (Held r y) at (all r y m))) [
        | inl k ↦ absurd k
        | inr k ↦ k
      ]

  -- In every reachable state, whoever is registered for the reply to a reference is a goroutine in
  -- Request that has that reference and that channel: one that has returned, was cancelled, or goes
  -- on with another connection has left nothing behind.
  pub registered_waits :
      {w : World}
      → Reach decode_parts decode_reply w
      → (r : Bytes) (y : ℕ) → In (r, y) w.wire.client.pending
      → Held r y w.requests
  unfolding start new_wire new_client
  registered_waits here r y m = absurd m
  registered_waits (next reached step) r y m =
      Step-AllHeld step (Reach-Inv decode_parts decode_reply reached) (registered_waits reached) r y
        m
