-- ===== src/Channel.antt =====
-- runner-go/internal/runner/channel.go: the frames of the control channel, the requests that wait for a
-- reply, the address of the channel and the delay between connections. encoding/json is the argument
-- `decode_parts` for a frame and `decode_reply` for a reply. A channel that a request waits on is a number.
pub mod Address
pub mod Backoff
pub mod Replies
pub mod Sessions
use robine_ci.Prelude.{
  ℕ, zero, suc, ◌+◌, ◌-◌, ◌*◌, min, Bool, true, false, not, Option, none, some, List, [], ◌∷◌, ltb,
  if◌then◌else◌,
}
use robine_ci.Prelude.Bytes.{Bytes, codes, bytes_eq}
use robine_ci.Prelude.Int.{ℤ, pos, negsuc}
use robine_ci.Offer.{Json, Items, is_empty}
use robine_ci.Strings.{trim_space, print_nat}
use robine_ci.Config.{Config, Url, executor_of}

abbrev pub runner_topic : Bytes
runner_topic = codes "runner:v1"

pub record Frame : Type 0 where
  pub reference : Bytes
  pub topic : Bytes
  pub event : Bytes
  pub payload : Json

-- json.Unmarshal into a string: null leaves it empty.
unfoldable pub string_of : Json → Option Bytes
string_of (Json.text s) = some s
string_of Json.null = some []
string_of _ = none

frame_of : Json → Option Bytes → Option Bytes → Option Bytes → Option Frame
frame_of payload (some reference) (some topic) (some event) =
    some (record { reference = reference; topic = topic; event = event; payload = payload })
frame_of payload _ _ _ = none

frame_of_parts : Option (List Json) → Option Frame
unfolding frame_of string_of
frame_of_parts (some (join ∷ reference ∷ topic ∷ event ∷ payload ∷ [])) =
    frame_of payload (string_of reference) (string_of topic) (string_of event)
frame_of_parts _ = none

-- The frame, or none after an error.
unfoldable pub decode_frame : (Bytes → Option (List Json)) → Bytes → Option Frame
unfolding frame_of_parts
decode_frame decode_parts payload = frame_of_parts (decode_parts payload)

pub record Reply : Type 0 where
  pub status : Bytes
  pub response : List (Bytes × Json)

-- What the client keeps of the requests: the last reference, and who waits for which reference.
pub record Client : Type 0 where
  pub next_reference : ℕ
  pub pending : List (Bytes × ℕ)

unfoldable pub new_client : Client
new_client = record { next_reference = 1; pending = [] }

-- `c.pending[reference]`
unfoldable pub waiting_for : Bytes → List (Bytes × ℕ) → Option ℕ
waiting_for reference [] = none
waiting_for reference ((r, waiter) ∷ pending) =
    let rest = waiting_for reference pending in if bytes_eq r reference then some waiter else rest

-- `delete(c.pending, reference)`
unfoldable pub without : Bytes → List (Bytes × ℕ) → List (Bytes × ℕ)
without reference [] = []
without reference ((r, waiter) ∷ pending) =
    let rest = without reference pending in
    if bytes_eq r reference then rest else (r, waiter) ∷ rest

-- `c.nextRef.Add(1)`, with its text, before the mutex is taken.
unfoldable pub take_reference : Client → Bytes × Client
take_reference c =
    (print_nat (suc c.next_reference), record c { next_reference = suc c.next_reference })

-- `c.pending[reference] = replyCh`, under the mutex.
unfoldable pub register : Bytes → ℕ → Client → Client
unfolding without
register reference waiter c = record c {
  pending = (reference, waiter) ∷ without reference c.pending;
}

unfoldable pub remove_pending : Bytes → Client → Client
unfolding without
remove_pending reference c = record c { pending = without reference c.pending }

-- What a frame leads to: an error that ends the session, a reply for the one who waits, a reply that
-- nobody waits for, or an event for the application.
pub data Handled : Type 0 where
  refused : Handled
  delivered : ℕ → Reply → Handled
  ignored : Handled
  dispatched : Bytes → Json → Handled

deliver_to : Option ℕ → Reply → Handled
deliver_to none reply = ignored
deliver_to (some waiter) reply = delivered waiter reply

handle_reply : Bytes → Option Reply → Client → Handled × Client
unfolding deliver_to remove_pending waiting_for
handle_reply reference none c = (refused, c)
handle_reply reference (some reply) c =
    (deliver_to (waiting_for reference c.pending) reply, remove_pending reference c)

handle_decoded : (Json → Option Reply) → Option Frame → Client → Handled × Client
unfolding handle_reply
handle_decoded decode_reply none c = (refused, c)
handle_decoded decode_reply (some frame) c =
    if not (bytes_eq frame.topic runner_topic)
    then (refused, c)
    else if bytes_eq frame.event (codes "phx_reply")
    then handle_reply frame.reference (decode_reply frame.payload) c
    else (dispatched frame.event frame.payload, c)

unfoldable pub handle_frame :
    (Bytes → Option (List Json)) → (Json → Option Reply) → Bytes → Client → Handled × Client
unfolding handle_decoded
handle_frame decode_parts decode_reply payload c =
    handle_decoded decode_reply (decode_frame decode_parts payload) c

-- The address of the channel: the server's URL with its scheme, path, query and fragment replaced.
pub record SocketUrl : Type 0 where
  pub server : Url
  pub scheme : Bytes
  pub path : Bytes
  pub raw_query : Bytes
  pub fragment : Bytes

socket_of : Url → Bytes → SocketUrl
socket_of u scheme = record {
  server = u;
  scheme = scheme;
  path = codes "/runner/socket/websocket";
  raw_query = codes "vsn=2.0.0";
  fragment = [];
}

socket_url : Option Url → Option SocketUrl
unfolding socket_of
socket_url none = none
socket_url (some u) =
    if bytes_eq u.scheme (codes "https")
    then some (socket_of u (codes "wss"))
    else if bytes_eq u.scheme (codes "http")
    then some (socket_of u (codes "ws"))
    else none

-- The address, or none after an error.
unfoldable pub websocket_url : (Bytes → Option Url) → Bytes → Option SocketUrl
unfolding socket_url
websocket_url parse_url server_url = socket_url (parse_url server_url)

abbrev pub quarter_second : ℕ
quarter_second = 250_000_000

abbrev pub half_minute : ℕ
half_minute = 30_000_000_000

-- The loop that doubles the ceiling, with the rounds that are left.
unfoldable pub double_rounds : ℕ → ℕ → ℕ
double_rounds zero ceiling = ceiling
double_rounds (suc rounds) ceiling =
    let rest = double_rounds rounds (ceiling * 2) in
    if ltb ceiling half_minute then rest else ceiling

-- The ceiling of the delay in nanoseconds.
ceiling_after : ℕ → ℕ
unfolding double_rounds
ceiling_after attempt =
    let ceiling = double_rounds (attempt - 1) quarter_second in
    if ltb half_minute ceiling then half_minute else ceiling

-- `rand.Int64N` is the argument `draw`.
unfoldable pub reconnect_delay : (ℕ → ℕ) → ℤ → ℕ
unfolding ceiling_after
reconnect_delay draw (pos n) = draw (ceiling_after (if ltb n 1 then 1 else n) + 1)
reconnect_delay draw (negsuc n) = draw (ceiling_after 1 + 1)

strings_of : Items → List Bytes
strings_of Items.nil = []
strings_of (Items.cons (Json.text s) items) =
    let rest = strings_of items in if is_empty (trim_space s) then rest else s ∷ rest
strings_of (Items.cons _ items) = strings_of items

-- parseStringSlice; nil is the empty list.
unfoldable pub parse_string_slice : Option Json → List Bytes
unfolding strings_of
parse_string_slice (some (Json.array items)) = strings_of items
parse_string_slice _ = []
