-- ===== src/Channel/Sessions/Moves.antt =====
-- What a frame does to the channels that wait for a reply and to those that were sent one.
use robine_ci.Prelude.{
  ℕ, ◌+◌, ◌≤◌, ◌≡◌, refl, Option, none, some, List, [], ◌∷◌, ◌==◌, if◌then◌else◌, arith, Bool-cases,
  inl, inr,
}
use robine_ci.Prelude.Bytes.{Bytes, codes, bytes_eq}
use robine_ci.Offer.{Json}
use robine_ci.Channel.{
  Client, Frame, Reply, Handled, refused, dispatched, waiting_for, without, remove_pending,
  handle_frame, handle_decoded, handle_reply, deliver_to, runner_topic, decode_frame,
}
use robine_ci.Channel.Sessions.{sent_to}

-- How often a channel is among some, and among those that wait for a reply.
abbrev pub copies : ℕ → List ℕ → ℕ
copies x [] = 0
copies x (y ∷ ys) = (if x == y then 1 else 0) + copies x ys

abbrev pub waiters : ℕ → List (Bytes × ℕ) → ℕ
waiters x [] = 0
waiters x ((r, y) ∷ pending) = (if x == y then 1 else 0) + waiters x pending

pub without-waiters :
    (x : ℕ) (r : Bytes) (pending : List (Bytes × ℕ))
    → waiters x (without r pending) ≤ waiters x pending
unfolding without
without-waiters x r [] = omega arith
without-waiters x r ((k, y) ∷ pending) = elim (Bool-cases (bytes_eq k r)) [
  | inl e ↦ rw e (ground (arith, without-waiters x r pending))
  | inr e ↦ rw e (ground (arith, without-waiters x r pending))
]

-- The one that is sent a reply waits no longer.
pub found-waiters :
    (x y : ℕ) (r : Bytes) (pending : List (Bytes × ℕ))
    → waiting_for r pending ≡ some y
    → (if x == y then 1 else 0) + waiters x (without r pending) ≤ waiters x pending
unfolding without waiting_for
found-waiters x y r [] e = cc
found-waiters x y r ((k, z) ∷ pending) e = elim (Bool-cases (bytes_eq k r)) [
  | inl h ↦
      let e' : some z ≡ some y = rw h at e in
      let same : z ≡ y = cc in rw h (ground (arith, same, without-waiters x r pending))
  | inr h ↦
      let e' : waiting_for r pending ≡ some y = rw h at e in
      rw h (ground (arith, found-waiters x y r pending e'))
]

-- What a frame does to those that wait and to those that have a reply.
module _ (decode_parts : Bytes → Option (List Json)) (decode_reply : Json → Option Reply) where
  -- The channel is no more often among both together.
  unfoldable pub Moves : ℕ → Client → Handled × Client → Type 0
  Moves x c (handled, c') = copies x (sent_to handled) + waiters x c'.pending ≤ waiters x c.pending

  delivers :
      (x : ℕ) (r : Bytes) (c : Client) (reply : Reply) (to : Option ℕ)
      → waiting_for r c.pending ≡ to
      → Moves x c (deliver_to to reply, remove_pending r c)
  unfolding Moves deliver_to remove_pending sent_to
  delivers x r c reply none e = ground (arith, without-waiters x r c.pending)
  delivers x r c reply (some y) e = ground (arith, found-waiters x y r c.pending e)

  nothing_sent : (x : ℕ) (c : Client) (h : Handled) → sent_to h ≡ [] → Moves x c (h, c)
  unfolding Moves
  nothing_sent x c h e = rw e (omega arith)

  handle_reply-Moves :
      (x : ℕ) (r : Bytes) (reply : Option Reply) (c : Client) → Moves x c (handle_reply r reply c)
  unfolding handle_reply sent_to
  handle_reply-Moves x r none c = nothing_sent x c refused refl
  handle_reply-Moves x r (some reply) c = delivers x r c reply (waiting_for r c.pending) refl

  handle_decoded-Moves :
      (x : ℕ) (read : Option Frame) (c : Client) → Moves x c (handle_decoded decode_reply read c)
  unfolding handle_decoded sent_to
  handle_decoded-Moves x none c = nothing_sent x c refused refl
  handle_decoded-Moves x (some decoded) c =
      elim (Bool-cases (bytes_eq decoded.topic runner_topic)) [
        | inr e ↦ rw e (nothing_sent x c refused refl)
        | inl e ↦ elim (Bool-cases (bytes_eq decoded.event (codes "phx_reply"))) [
          | inl h ↦
              rw (e, h) (handle_reply-Moves x decoded.reference (decode_reply decoded.payload) c)
          | inr h ↦ rw (e, h) (nothing_sent x c (dispatched decoded.event decoded.payload) refl)
        ]
      ]

  pub handle_frame-Moves :
      (x : ℕ) (payload : Bytes) (c : Client)
      → Moves x c (handle_frame decode_parts decode_reply payload c)
  unfolding handle_frame
  handle_frame-Moves x payload c = handle_decoded-Moves x (decode_frame decode_parts payload) c
