-- ===== src/Tests/Sessions.antt =====
-- Tests of the goroutines of the control channel: a session opens, a request is registered, and its
-- reply comes before the write of its frame is over.
use robine_ci.Prelude.{◌≤◌, ◌≡◌, refl, Option, none, some, List, [], ◌∷◌, In, inl}
use robine_ci.Prelude.Bytes.{Bytes, codes, bytes_eq}
use robine_ci.Offer.{Json}
use robine_ci.Strings.{print_nat, digits}
use robine_ci.Channel.{
  Reply, new_client, take_reference, register, without, remove_pending, waiting_for, decode_frame,
  string_of, handle_frame,
}
use robine_ci.Channel.Sessions.{
  World, start, new_wire, connect, disconnect, is_conn, connected, numbered, writing, with_client,
  read_frame, sent_to, Reach, here, next, open_session, end_session, frame, request, found,
  referenced, registered,
}
use robine_ci.Channel.Sessions.Moves.{copies}
use robine_ci.Channel.Sessions.Once.{no_second_reply}
use robine_ci.Channel.Sessions.Held.{Held, registered_waits}

abbrev reply_parts : Bytes → Option (List Json)
reply_parts payload = some (
    Json.null
    ∷ Json.text (codes "2")
    ∷ Json.text (codes "runner:v1")
    ∷ Json.text (codes "phx_reply")
    ∷ Json.null
    ∷ [])

abbrev decode_reply : Json → Option Reply
decode_reply document = some (record { status = codes "ok"; response = [] })

abbrev opened : World
opened = record start { wire = connect 0 start.wire; session = some 0; next_conn = 1 }

abbrev asking : World
asking = record opened { requests = connected 0 1 ∷ [] }

abbrev reference : Bytes
reference = (take_reference asking.wire.client).0

abbrev named : World
named = record (with_client asking (take_reference asking.wire.client).1) {
  requests = numbered 0 1 reference ∷ [];
}

abbrev asked : World
asked = record (with_client named (register reference 0 named.wire.client)) {
  next_waiter = 1;
  requests = writing 0 1 reference 0 ∷ [];
}

abbrev replied : World
replied = read_frame reply_parts decode_reply (codes "x") asked

abbrev ended : World
ended = record replied { wire = disconnect 0 replied.wire; session = none }

asked-Reach : Reach reply_parts decode_reply asked
unfolding start new_wire connect
asked-Reach =
    next
      (next (next (next (next here (open_session refl)) request) (found [] [] 0 refl refl))
        (referenced [] [] 0 1 refl))
      (registered [] [] 0 1 reference refl refl)

ended-Reach : Reach reply_parts decode_reply ended
unfolding start new_wire connect read_frame
ended-Reach = next (next asked-Reach (frame 0 (codes "x") refl)) (end_session 0 refl)

-- The reply is in the channel, and both channels of the session are closed.
ended-state :
    (ended.mail ≡ 0 ∷ []) × (ended.wire.closed ≡ 1 ∷ 0 ∷ []) × (ended.wire.client.pending ≡ [])
unfolding start new_wire connect disconnect is_conn read_frame sent_to new_client take_reference
    register without remove_pending waiting_for decode_frame string_of handle_frame print_nat digits
    bytes_eq
ended-state = (refl, refl, refl)

no_second_reply_example : (copies 0 ended.mail ≤ 1) × (copies 0 ended.wire.closed ≤ 1)
no_second_reply_example = no_second_reply reply_parts decode_reply ended-Reach 0

asked_two : In (codes "2", 0) asked.wire.client.pending
unfolding start new_wire connect new_client take_reference register without print_nat digits
asked_two = inl refl

registered_waits_example : Held (codes "2") 0 asked.requests
registered_waits_example =
    registered_waits reply_parts decode_reply asked-Reach (codes "2") 0 asked_two
