-- ===== src/Tests/Frames.antt =====
-- Tests of the control channel.
use robine_ci.Prelude.{◌≡◌, ◌≢◌, refl, Option, some, List, [], ◌∷◌}
use robine_ci.Prelude.Bytes.{Bytes, codes}
use robine_ci.Offer.{Json}
use robine_ci.Strings.{print_nat, digits}
use robine_ci.Channel.{
  Client, Reply, delivered, ignored, new_client, take_reference, register, waiting_for,
  decode_frame, string_of, handle_frame, SocketUrl, websocket_url,
}
use robine_ci.Channel.Address.{IsProtected, websocket_url-IsProtected}
use robine_ci.Channel.Replies.{IsReply, handle_frame-once}
use robine_ci.Tests.Settings.{settings, settings_valid, parse_server}

abbrev reply_parts : Bytes → Option (List Json)
reply_parts payload = some (
    Json.null
    ∷ Json.text (codes "2")
    ∷ Json.text (codes "runner:v1")
    ∷ Json.text (codes "phx_reply")
    ∷ Json.null
    ∷ [])

abbrev accepted : Reply
accepted = record { status = codes "ok"; response = [] }

abbrev decode_reply : Json → Option Reply
decode_reply document = some accepted

abbrev reference : Bytes
reference = (take_reference new_client).0

abbrev numbered : Client
numbered = (take_reference new_client).1

frame-IsReply : (payload : Bytes) → IsReply reply_parts decode_reply payload reference accepted
unfolding decode_frame string_of take_reference new_client print_nat digits
frame-IsReply payload = record {
  frame = record {
    reference = codes "2";
    topic = codes "runner:v1";
    event = codes "phx_reply";
    payload = Json.null;
  };
  decodes = refl;
  ours = refl;
  replies = refl;
  refers = refl;
  holds = refl;
}

other_reference : reference ≢ []
unfolding take_reference new_client print_nat digits
other_reference e = cc

handle_frame-once_example :
    ((handle_frame reply_parts decode_reply (codes "x") (register reference 7 numbered)).0
      ≡ delivered 7 accepted)
    × ((handle_frame reply_parts decode_reply
          (codes "y")
          (handle_frame reply_parts decode_reply (codes "x") (register reference 7 numbered)).1).0
        ≡ ignored)
    × (waiting_for []
          (handle_frame reply_parts decode_reply
            (codes "x")
            (register reference 7 numbered)).1.pending
        ≡ waiting_for [] numbered.pending)
handle_frame-once_example =
    handle_frame-once reply_parts decode_reply reference 7 numbered (codes "x") (codes "y") accepted
      accepted [] (frame-IsReply (codes "x")) (frame-IsReply (codes "y")) other_reference

websocket_url-IsProtected_example :
    (socket : SocketUrl) × (websocket_url parse_server settings.server_url ≡ some socket)
    × IsProtected socket
websocket_url-IsProtected_example =
    websocket_url-IsProtected parse_server [] settings settings_valid
