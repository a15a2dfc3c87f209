-- ===== src/Channel/Sessions.antt =====
-- The goroutines of runner-go/internal/runner/channel.go: one session after the other connects, reads
-- frames and disconnects; any number of goroutines wait in Request. One step is what one of them does
-- under the mutex, or one wait that is over; a schedule is any sequence of steps. A connection, a
-- channel that is closed and a channel for a reply are numbers, new ones as they are made.
pub mod Moves
pub mod Once
pub mod Held
use robine_ci.Prelude.{
  ℕ, suc, ◌+◌, ◌≡◌, ◌≢◌, Bool, true, false, Option, none, some, List, [], ◌∷◌, ◌++◌, ◌==◌, In,
  if◌then◌else◌,
}
use robine_ci.Prelude.Bytes.{Bytes}
use robine_ci.Offer.{Json}
use robine_ci.Channel.{
  Client, new_client, Reply, Handled, delivered, take_reference, register, remove_pending,
  handle_frame,
}

-- The fields of channelClient under the mutex, with the channels that were closed, and the next
-- number of such a channel.
pub record Wire : Type 0 where
  pub client : Client
  pub conn : Option ℕ
  pub ready : ℕ
  pub lost : ℕ
  pub closed : List ℕ
  pub next_channel : ℕ

unfoldable pub new_wire : Wire
new_wire = record {
  client = new_client;
  conn = none;
  ready = 0;
  lost = 1;
  closed = [];
  next_channel = 2;
}

unfoldable pub connect : ℕ → Wire → Wire
connect conn c = record c { conn = some conn; closed = c.ready ∷ c.closed }

unfoldable pub is_conn : Option ℕ → ℕ → Bool
is_conn none conn = false
is_conn (some current) conn = current == conn

unfoldable pub disconnect : ℕ → Wire → Wire
unfolding is_conn
disconnect conn c =
    if is_conn c.conn conn
    then record c {
      conn = none;
      closed = c.lost ∷ c.closed;
      ready = c.next_channel;
      lost = suc c.next_channel;
      next_channel = suc (suc c.next_channel);
    }
    else c

-- Where a goroutine stands in Request: it waits for a connection; it has one, with the channel that is
-- closed when that is lost; it has taken a reference too; it has registered the reference and a channel for
-- the reply, and writes the frame; it waits for the reply.
pub data Phase : Type 0 where
  waiting : Phase
  connected : ℕ → ℕ → Phase
  numbered : ℕ → ℕ → Bytes → Phase
  writing : ℕ → ℕ → Bytes → ℕ → Phase
  awaiting : ℕ → Bytes → ℕ → Phase

-- The state of the client and of the goroutines: the connection of the session that runs, the next
-- number of a connection and of a channel for a reply, the goroutines in Request, and the channels to
-- which replies were sent.
pub record World : Type 0 where
  pub wire : Wire
  pub session : Option ℕ
  pub next_conn : ℕ
  pub next_waiter : ℕ
  pub requests : List Phase
  pub mail : List ℕ

unfoldable pub start : World
unfolding new_wire
start = record {
  wire = new_wire;
  session = none;
  next_conn = 0;
  next_waiter = 0;
  requests = [];
  mail = [];
}

-- The channel to which a frame's reply is sent.
unfoldable pub sent_to : Handled → List ℕ
sent_to (delivered waiter reply) = waiter ∷ []
sent_to _ = []

abbrev pub with_client : World → Client → World
with_client w c = record w { wire = record w.wire { client = c } }

module _ (decode_parts : Bytes → Option (List Json)) (decode_reply : Json → Option Reply) where
  unfoldable pub read_frame : Bytes → World → World
  unfolding sent_to
  read_frame payload w =
      let (handled, client) = handle_frame decode_parts decode_reply payload w.wire.client in
      record (with_client w client) { mail = sent_to handled ++ w.mail }

  pub data Step (w : World) : World → Type 0 where
    open_session :
        w.session ≡ none
        → Step w (record w {
          wire = connect w.next_conn w.wire;
          session = some w.next_conn;
          next_conn = suc w.next_conn;
        })
    end_session :
        (conn : ℕ)
        → w.session ≡ some conn
        → Step w (record w { wire = disconnect conn w.wire; session = none })
    frame : (conn : ℕ) (payload : Bytes) → w.session ≡ some conn → Step w (read_frame payload w)
    request : Step w (record w { requests = waiting ∷ w.requests })
    found :
        (before after : List Phase) (conn : ℕ)
        → w.requests ≡ before ++ waiting ∷ after
        → w.wire.conn ≡ some conn
        → Step w (record w { requests = before ++ connected conn w.wire.lost ∷ after })
    referenced :
        (before after : List Phase) (conn lost : ℕ)
        → w.requests ≡ before ++ connected conn lost ∷ after
        → Step w (record (with_client w (take_reference w.wire.client).1) {
          requests = before ++ numbered conn lost (take_reference w.wire.client).0 ∷ after;
        })
    stale :
        (before after : List Phase) (conn lost : ℕ) (reference : Bytes)
        → w.requests ≡ before ++ numbered conn lost reference ∷ after
        → w.wire.conn ≢ some conn
        → Step w (record w { requests = before ++ waiting ∷ after })
    registered :
        (before after : List Phase) (conn lost : ℕ) (reference : Bytes)
        → w.requests ≡ before ++ numbered conn lost reference ∷ after
        → w.wire.conn ≡ some conn
        → Step w (record (with_client w (register reference w.next_waiter w.wire.client)) {
          next_waiter = suc w.next_waiter;
          requests = before ++ writing conn lost reference w.next_waiter ∷ after;
        })
    written :
        (before after : List Phase) (conn lost : ℕ) (reference : Bytes) (waiter : ℕ)
        → w.requests ≡ before ++ writing conn lost reference waiter ∷ after
        → Step w (record w { requests = before ++ awaiting lost reference waiter ∷ after })
    not_written :
        (before after : List Phase) (conn lost : ℕ) (reference : Bytes) (waiter : ℕ)
        → w.requests ≡ before ++ writing conn lost reference waiter ∷ after
        → Step w (record (with_client w (remove_pending reference w.wire.client)) {
          requests = before ++ waiting ∷ after;
        })
    answered :
        (before after : List Phase) (lost : ℕ) (reference : Bytes) (waiter : ℕ)
        → w.requests ≡ before ++ awaiting lost reference waiter ∷ after
        → In waiter w.mail
        → Step w (record w { requests = before ++ after })
    connection_lost :
        (before after : List Phase) (lost : ℕ) (reference : Bytes) (waiter : ℕ)
        → w.requests ≡ before ++ awaiting lost reference waiter ∷ after
        → In lost w.wire.closed
        → Step w (record (with_client w (remove_pending reference w.wire.client)) {
          requests = before ++ waiting ∷ after;
        })
    cancelled :
        (before after : List Phase) (lost : ℕ) (reference : Bytes) (waiter : ℕ)
        → w.requests ≡ before ++ awaiting lost reference waiter ∷ after
        → Step w (record (with_client w (remove_pending reference w.wire.client)) {
          requests = before ++ after;
        })
    given_up :
        (before after : List Phase)
        → w.requests ≡ before ++ waiting ∷ after
        → Step w (record w { requests = before ++ after })

  pub data Reach : World → Type 0 where
    here : Reach start
    next : {w v : World} → Reach w → Step w v → Reach v
