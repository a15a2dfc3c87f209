-- ===== src/Channel/Sessions/Once.antt =====
-- Whatever the schedule, no channel for a reply is sent a second one, and no channel is closed twice.
use robine_ci.Prelude.{
  ℕ, suc, ◌+◌, ◌≤◌, ◌<◌, ◌≡◌, ◌≢◌, refl, ◌∙◌, true, Option, none, some, List, [], ◌∷◌, ◌++◌, arith,
}
use robine_ci.Prelude.Bytes.{Bytes}
use robine_ci.Offer.{Json}
use robine_ci.Channel.{
  Client, new_client, Reply, without, take_reference, register, remove_pending, handle_frame,
}
use robine_ci.Channel.Sessions.{
  Wire, new_wire, connect, disconnect, is_conn, World, start, sent_to, read_frame, Step, Reach,
  here, next, open_session, end_session, frame, request, found, referenced, stale, registered,
  written, not_written, answered, connection_lost, cancelled, given_up,
}
use robine_ci.Channel.Sessions.Moves.{copies, waiters, without-waiters, Moves, handle_frame-Moves}

-- A channel waits for a reply, or was sent one, at most once; the channels to come are neither.
pub record Once (pending : List (Bytes × ℕ)) (mail : List ℕ) (next_waiter : ℕ) : Type 0 where
  pub single : (x : ℕ) → waiters x pending + copies x mail ≤ 1
  fresh : (x : ℕ) → next_waiter ≤ x → waiters x pending + copies x mail ≡ 0

Once-weaken :
    {pending pending' : List (Bytes × ℕ)} {mail mail' : List ℕ} {n : ℕ}
    → ((x : ℕ) → waiters x pending' + copies x mail' ≤ waiters x pending + copies x mail)
    → Once pending mail n
    → Once pending' mail' n
Once-weaken less o = record {
  single = λ x. omega (arith, less x, o.single x);
  fresh = λ x h. omega (arith, less x, o.fresh x h);
}

Once-register :
    (reference : Bytes) (pending : List (Bytes × ℕ)) (mail : List ℕ) (n : ℕ)
    → Once pending mail n
    → Once ((reference, n) ∷ without reference pending) mail (suc n)
Once-register reference pending mail n o = record {
  single =
      λ x. ground (arith, without-waiters x reference pending, o.single x, o.fresh x, o.fresh n);
  fresh = λ x h. ground (arith, without-waiters x reference pending, o.fresh x);
}

copies-append : (x : ℕ) (xs ys : List ℕ) → copies x (xs ++ ys) ≡ copies x xs + copies x ys
copies-append x [] ys = omega arith
copies-append x (y ∷ xs) ys = omega (arith, copies-append x xs ys)

-- The client is connected as the session is; what may be closed next has not been closed.
pub record Sealed (c : Wire) (session : Option ℕ) : Type 0 where
  agree : c.conn ≡ session
  single : (x : ℕ) → copies x c.closed ≤ 1
  fresh : (x : ℕ) → c.next_channel ≤ x → copies x c.closed ≡ 0
  lost_open : copies c.lost c.closed ≡ 0
  ready_open : c.conn ≡ none → copies c.ready c.closed ≡ 0
  ready_small : c.ready < c.next_channel
  lost_small : c.lost < c.next_channel
  apart : c.ready ≢ c.lost

connect-Sealed :
    (conn : ℕ) (c : Wire) (session : Option ℕ)
    → session ≡ none
    → Sealed c session
    → Sealed (connect conn c) (some conn)
unfolding connect
connect-Sealed conn c session down s =
    let ready = s.ready_open (s.agree ∙ down) in
    record {
      agree = refl;
      single = λ x. ground (arith, s.single x, ready);
      fresh = λ x h. ground (arith, s.fresh x, s.ready_small);
      lost_open = ground (arith, s.lost_open, s.apart);
      ready_open = λ e. cc;
      ready_small = s.ready_small;
      lost_small = s.lost_small;
      apart = s.apart;
    }

same_conn : (o : Option ℕ) (conn : ℕ) → o ≡ some conn → is_conn o conn ≡ true
unfolding is_conn
same_conn none conn e = cc
same_conn (some x) conn e = ground (arith, e)

disconnect-Sealed :
    (conn : ℕ) (c : Wire) (session : Option ℕ)
    → session ≡ some conn
    → Sealed c session
    → Sealed (disconnect conn c) none
unfolding disconnect
disconnect-Sealed conn c session up s = rw (same_conn c.conn conn (s.agree ∙ up)) (record {
  agree = refl;
  single = λ x. ground (arith, s.single x, s.lost_open);
  fresh = λ x h. ground (arith, s.fresh x, s.lost_small);
  lost_open = ground (arith, s.fresh (suc c.next_channel), s.lost_small);
  ready_open = λ e. ground (arith, s.fresh c.next_channel, s.lost_small);
  ready_small = omega arith;
  lost_small = omega arith;
  apart = λ e. omega (arith, e);
})

pub disconnect-client : (conn : ℕ) (c : Wire) → (disconnect conn c).client ≡ c.client
unfolding disconnect
disconnect-client conn c = ground arith

pub record Inv (w : World) : Type 0 where
  pub once : Once w.wire.client.pending w.mail w.next_waiter
  pub seal : Sealed w.wire w.session

-- The wire but for the client is what it was.
Sealed-client :
    {c : Wire} {session : Option ℕ} (client : Client)
    → Sealed c session
    → Sealed (record c { client = client }) session
Sealed-client client s = record {
  agree = s.agree;
  single = s.single;
  fresh = s.fresh;
  lost_open = s.lost_open;
  ready_open = s.ready_open;
  ready_small = s.ready_small;
  lost_small = s.lost_small;
  apart = s.apart;
}

-- A step that changes the client only in those that wait.
client-Inv :
    {w : World} (client : Client) (mail : List ℕ)
    → ((x : ℕ)
        → waiters x client.pending + copies x mail
          ≤ waiters x w.wire.client.pending + copies x w.mail)
    → Inv w
    → Once client.pending mail w.next_waiter × Sealed (record w.wire { client = client }) w.session
client-Inv client mail less i = (Once-weaken less i.once, Sealed-client client i.seal)

dropped :
    (reference : Bytes) (w : World) (x : ℕ)
    → waiters x (remove_pending reference w.wire.client).pending + copies x w.mail
      ≤ waiters x w.wire.client.pending + copies x w.mail
unfolding remove_pending
dropped reference w x = omega (arith, without-waiters x reference w.wire.client.pending)

module _ (decode_parts : Bytes → Option (List Json)) (decode_reply : Json → Option Reply) where
  read_frame-Inv :
      (payload : Bytes) (w : World) → Inv w → Inv (read_frame decode_parts decode_reply payload w)
  unfolding read_frame Moves
  read_frame-Inv payload w i =
      let (handled, client) = handle_frame decode_parts decode_reply payload w.wire.client in
      let (once, seal) =
        client-Inv client (sent_to handled ++ w.mail)
          (λ x. omega (
            arith,
            copies-append x (sent_to handled) w.mail,
            handle_frame-Moves decode_parts decode_reply x payload w.wire.client,
          ))
          i in
      record { once = once; seal = seal }

  Step-Inv : {w v : World} → Step decode_parts decode_reply w v → Inv w → Inv v
  unfolding connect register take_reference
  Step-Inv {w} (open_session down) i = record {
    once = i.once;
    seal = connect-Sealed w.next_conn w.wire w.session down i.seal;
  }
  Step-Inv {w} (end_session conn up) i = record {
    once = rw (disconnect-client conn w.wire) i.once;
    seal = disconnect-Sealed conn w.wire w.session up i.seal;
  }
  Step-Inv {w} (frame conn payload up) i = read_frame-Inv payload w i
  Step-Inv request i = record { once = i.once; seal = i.seal }
  Step-Inv (found before after conn at has) i = record { once = i.once; seal = i.seal }
  Step-Inv {w} (referenced before after conn lost at) i = record {
    once = i.once;
    seal = Sealed-client (take_reference w.wire.client).1 i.seal;
  }
  Step-Inv (stale before after conn lost reference at gone) i = record {
    once = i.once;
    seal = i.seal;
  }
  Step-Inv {w} (registered before after conn lost reference at has) i = record {
    once = Once-register reference w.wire.client.pending w.mail w.next_waiter i.once;
    seal = Sealed-client (register reference w.next_waiter w.wire.client) i.seal;
  }
  Step-Inv (written before after conn lost reference waiter at) i = record {
    once = i.once;
    seal = i.seal;
  }
  Step-Inv {w} (not_written before after conn lost reference waiter at) i =
      let (once, seal) =
        client-Inv (remove_pending reference w.wire.client) w.mail (dropped reference w) i in
      record { once = once; seal = seal }
  Step-Inv (answered before after lost reference waiter at has) i = record {
    once = i.once;
    seal = i.seal;
  }
  Step-Inv {w} (connection_lost before after lost reference waiter at gone) i =
      let (once, seal) =
        client-Inv (remove_pending reference w.wire.client) w.mail (dropped reference w) i in
      record { once = once; seal = seal }
  Step-Inv {w} (cancelled before after lost reference waiter at) i =
      let (once, seal) =
        client-Inv (remove_pending reference w.wire.client) w.mail (dropped reference w) i in
      record { once = once; seal = seal }
  Step-Inv (given_up before after at) i = record { once = i.once; seal = i.seal }

  start-Inv : Inv start
  unfolding start new_wire new_client
  start-Inv = record {
    once = record { single = λ x. omega arith; fresh = λ x h. omega arith };
    seal = record {
      agree = refl;
      single = λ x. omega arith;
      fresh = λ x h. omega arith;
      lost_open = refl;
      ready_open = λ e. refl;
      ready_small = omega arith;
      lost_small = omega arith;
      apart = λ e. omega (arith, e);
    };
  }

  pub Reach-Inv : {w : World} → Reach decode_parts decode_reply w → Inv w
  Reach-Inv here = start-Inv
  Reach-Inv (next r step) = Step-Inv step (Reach-Inv r)

  -- In every reachable state each channel for a reply was sent at most one, so that its buffer of one
  -- is never full when the session sends it, and each channel that says that the connection is ready
  -- or lost was closed at most once.
  pub no_second_reply :
      {w : World}
      → Reach decode_parts decode_reply w
      → (x : ℕ) → (copies x w.mail ≤ 1) × (copies x w.wire.closed ≤ 1)
  no_second_reply r x = let i = Reach-Inv r in (omega (arith, i.once.single x), i.seal.single x)
