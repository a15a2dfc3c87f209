-- ===== src/Channel/Replies.antt =====
-- handleFrame of channel.go: a reply reaches the one who waits for it, once.
use robine_ci.Prelude.{
  ℕ, ◌≡◌, ◌≢◌, refl, ap, ◌∙◌, Option, none, some, List, [], ◌∷◌, Bool-cases, inl, inr, arith,
}
use robine_ci.Prelude.Bytes.{Bytes, codes, bytes_eq, bytes_eq_refl, bytes_eq_ne, bytes_eq_iff}
use robine_ci.Offer.{Json}
use robine_ci.Channel.{
  Frame, Reply, Client, delivered, ignored, runner_topic, waiting_for, without, register,
  remove_pending, decode_frame, deliver_to, handle_reply, handle_decoded, handle_frame,
}

waiting_for-without :
    (r q : Bytes) (pending : List (Bytes × ℕ))
    → r ≢ q
    → waiting_for q (without r pending) ≡ waiting_for q pending
unfolding waiting_for without
waiting_for-without r q [] other = refl
waiting_for-without r q ((k, waiter) ∷ pending) other =
    ground (arith, bytes_eq_iff k r, bytes_eq_iff k q, waiting_for-without r q pending other, other)

waiting_for-without_self :
    (r : Bytes) (pending : List (Bytes × ℕ)) → waiting_for r (without r pending) ≡ none
unfolding waiting_for without
waiting_for-without_self r [] = refl
waiting_for-without_self r ((k, waiter) ∷ pending) = elim (Bool-cases (bytes_eq k r)) [
  | inl e ↦ rw e (waiting_for-without_self r pending)
  | inr e ↦ rw (e, e) (waiting_for-without_self r pending)
]

module _ (decode_parts : Bytes → Option (List Json)) (decode_reply : Json → Option Reply) where
  -- The frame with a reply.
  pub record IsReply (payload reference : Bytes) (reply : Reply) : Type 0 where
    pub frame : Frame
    pub decodes : decode_frame decode_parts payload ≡ some frame
    pub ours : frame.topic ≡ runner_topic
    pub replies : frame.event ≡ codes "phx_reply"
    pub refers : frame.reference ≡ reference
    pub holds : decode_reply frame.payload ≡ some reply

  handle_frame-reply :
      (payload reference : Bytes) (reply : Reply) (c : Client)
      → IsReply payload reference reply
      → handle_frame decode_parts decode_reply payload c
        ≡ (deliver_to (waiting_for reference c.pending) reply, remove_pending reference c)
  unfolding handle_frame handle_decoded handle_reply
  handle_frame-reply payload reference reply c is =
      rw
        (
          is.decodes,
          is.ours,
          bytes_eq_refl runner_topic,
          is.replies,
          bytes_eq_refl (codes "phx_reply"),
          is.holds,
          is.refers,
        )
        refl

  -- A request that is registered gets the first reply with its reference; a second one with that
  -- reference, and it may be another, is ignored; and who waits for another reference still waits for it.
  pub handle_frame-once :
      (reference : Bytes) (waiter : ℕ) (c : Client) (payload payload' : Bytes)
      (reply reply' : Reply) (q : Bytes)
      → IsReply payload reference reply
      → IsReply payload' reference reply'
      → reference ≢ q
      → ((handle_frame decode_parts decode_reply payload (register reference waiter c)).0
          ≡ delivered waiter reply)
        × ((handle_frame decode_parts decode_reply payload'
              (handle_frame decode_parts decode_reply payload (register reference waiter c)).1).0
            ≡ ignored)
        × (waiting_for q
              (handle_frame decode_parts decode_reply payload
                (register reference waiter c)).1.pending
            ≡ waiting_for q c.pending)
  unfolding register deliver_to remove_pending waiting_for without
  handle_frame-once r waiter c payload payload' reply reply' q is is' other =
      let c1 = register r waiter c in
      let first = handle_frame-reply payload r reply c1 is in
      let second = handle_frame-reply payload' r reply' (remove_pending r c1) is' in
      let found : waiting_for r c1.pending ≡ some waiter = rw (bytes_eq_refl r) refl in
      let kept : waiting_for q c1.pending ≡ waiting_for q c.pending =
        rw (bytes_eq_ne r q other) (waiting_for-without r q c.pending other) in
      (
        ap (λ t. t.0) first ∙ ap (λ o. deliver_to o reply) found,
        ap (λ t. (handle_frame decode_parts decode_reply payload' t.1).0) first
            ∙ ap (λ t. t.0) second
            ∙ ap (λ o. deliver_to o reply') (waiting_for-without_self r c1.pending),
        ap (λ t. waiting_for q t.1.pending) first ∙ waiting_for-without r q c1.pending other ∙ kept,
      )
