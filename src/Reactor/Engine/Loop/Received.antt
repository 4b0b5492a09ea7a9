-- ===== src/Reactor/Engine/Loop/Received.antt =====
-- What a receiver has been sent after several events that a socket can be read.
use mathlib.Core.List.{append_assoc, append-nil, map-append}
use rx_rust.Base.{
  ℕ, ◌+◌, ◌%◌, ◌^◌, ◌<◌, ◌≤◌, ◌≡◌, refl, sym, ap, ◌∙◌, false, some, List, [], ◌∷◌, ◌++◌, map,
  length, length-append, All, arith,
}
use rx_rust.Effect.{done, ok}
use rx_rust.Reactor.Connection.{ready}
use rx_rust.Reactor.Parsing.{addressed}
use rx_rust.Reactor.Services.{Kinds, Services, Slabs}
use rx_rust.Reactor.Engine.{Conn, EngineInner, NetEngineConfig}
use rx_rust.Reactor.Engine.Events.{readable}
use rx_rust.Reactor.Engine.Isolation.{Only, Only-same, Only-store, Only-trans}
use rx_rust.Reactor.Engine.Receiving.{Peer, least, encoded, InStep, readable-InStep}
use rx_rust.Reactor.Engine.Loop.{
  Event, can_read, can_write, notified, timed_out, handle, handle_all,
}

-- The events say that the socket of one token can be read, and not that the other end has hung up.
abbrev pub Reads : {k : Kinds} → Services k → ℕ → List (Event k) → Type 0
Reads v t [] = Unit
Reads v t (can_read u hint ∷ evs) = (u ≡ t) × (v.contains_huphint hint ≡ false) × Reads v t evs
Reads v t (can_write u ∷ evs) = ⊥
Reads v t (notified m ∷ evs) = ⊥
Reads v t (timed_out u ∷ evs) = ⊥

-- Messages that are brought by several reads.
abbrev pub all_of : {A : Type 0} → List (List A) → List A
all_of [] = []
all_of (os ∷ oss) = os ++ all_of oss

module _ {k : Kinds} (v : Services k) (tx : k.Tx) (peer : Peer v tx) where
  open peer use {got, unread, out, held, IsMessage}

  -- A read of a socket brings what comes next, behind what the buffer holds, where the buffer has room
  -- for it; the room gets less by as much.
  abbrev pub Brings : Type 0
  Brings =
      (s : k.Sock) (b : k.ReadBuf) (w : k.World) (os : List k.Output) (later : List (List k.Output))
      → unread w ≡ os ∷ later
      → length (encoded v tx peer os) ≤ v.buf_len b
      → (buf : k.ReadBuf) × (w' : k.World) × (v.read s b w
          ≡ (done (ok (ready (length (encoded v tx peer os))), buf), w'))
        × (held buf ≡ held b ++ encoded v tx peer os)
        × (v.buf_len buf + length (encoded v tx peer os) ≡ v.buf_len b)
        × (got w' ≡ got w)
        × (unread w' ≡ later)
        × (out w' ≡ out w)

  -- The messages of one read: not too many for the loop, and no more bytes than there is room for in
  -- every buffer that `readable` leaves behind.
  abbrev pub Read : ℕ → NetEngineConfig k → List k.Output → Type 0
  Read fuel cfg os =
      All IsMessage os × (length os < fuel) × (length (encoded v tx peer os) ≤ least cfg)

  pub length-encoded :
      (os oss : List k.Output)
      → length (encoded v tx peer (os ++ oss))
        ≡ length (encoded v tx peer os) + length (encoded v tx peer oss)
  length-encoded [] oss = omega arith
  length-encoded (o ∷ os) oss = omega (
    arith,
    length-encoded os oss,
    length-append (peer.encode o) (encoded v tx peer os),
    length-append (peer.encode o) (encoded v tx peer (os ++ oss)),
  )

  module _ {l : Slabs} (fuel t : ℕ) (brings : Brings) where
    -- What the events leave behind: `os` are the messages, `later` what further reads will bring.
    pub record Received (evs : List (Event k)) (e : EngineInner k l) (w : k.World)
        (os : List k.Output) (later : List (List k.Output)) : Type 0 where
      pub engine : EngineInner k l
      pub conn : Conn k
      pub world : k.World
      pub ended : handle_all v fuel evs e w ≡ (done engine, world)
      pub is_there : l.get engine.conns t ≡ some conn
      pub messages : got world ≡ got w ++ map (addressed t) os
      pub left : unread world ≡ later
      pub in_step : InStep v tx peer conn.buf conn.marker
      pub only : Only t e engine

    -- One event more, in front of the others.
    onward :
        (ev : Event k) (evs : List (Event k)) (e : EngineInner k l) (c' : Conn k) (w w' : k.World)
        (os oss : List k.Output) (later : List (List k.Output))
        → handle v fuel ev e w ≡ (done (record e { conns = l.store e.conns t c' }), w')
        → got w' ≡ got w ++ map (addressed t) os
        → Received evs (record e { conns = l.store e.conns t c' }) w' oss later
        → Received (ev ∷ evs) e w (os ++ oss) later
    unfolding handle_all
    onward ev evs e c' w w' os oss later handled now r = record {
      engine = r.engine;
      conn = r.conn;
      world = r.world;
      ended = rw handled r.ended;
      is_there = r.is_there;
      messages =
          r.messages
          ∙ ap (λ ms. ms ++ map (addressed t) oss) now
          ∙ append_assoc (got w) (map (addressed t) os) (map (addressed t) oss)
          ∙ ap (◌++◌ (got w)) (sym (map-append (addressed t) os oss));
      left = r.left;
      in_step = r.in_step;
      only = Only-trans t e _ r.engine (Only-store t e c') r.only;
    }

    pub can_read_lem :
        (u : ℕ) (hint : k.Hint) (e e' : EngineInner k l) (w w' : k.World)
        → u ≡ t
        → readable v fuel e t hint w ≡ (done e', w')
        → handle v fuel (can_read u hint) e w ≡ (done e', w')
    unfolding handle
    can_read_lem u hint e e' w w' at h = rw at h

    -- Where the far side, the buffers, the protocol and the event loop answer as they should, and
    -- each read brings the whole messages that come next, any number of events that the socket of a
    -- connection can be read, at none of which the other end has hung up, are handled, where there
    -- is fuel for one round more than a read brings messages, a read brings no more bytes than the
    -- least room that the configuration asks for, the read buffer has that room, and so has a buffer
    -- that is made, the marker stands behind all bytes in the read buffer, and these and the room
    -- behind them are fewer than 2 ^ 32: the receiver is sent the messages of as many reads as there are events, in the order in which they came, under the
    -- token of the connection, and nothing else; the messages of later reads are still to come; the
    -- marker stands behind all bytes in the read buffer again; and all other connections, the
    -- listeners, the timeouts and the configuration are as they were.
    pub handle_all-Received :
        (evs : List (Event k)) (oss later : List (List k.Output)) (e : EngineInner k l) (c : Conn k)
        (w : k.World)
        → Reads v t evs
        → length evs ≡ length oss
        → unread w ≡ oss ++ later
        → All (Read fuel e.config) oss
        → least e.config ≤ e.config.read_buf_sz % 2 ^ 32
        → l.contains e.listeners t ≡ false
        → l.get e.conns t ≡ some c
        → c.conn_tx ≡ tx
        → InStep v tx peer c.buf c.marker
        → least e.config ≤ v.buf_len c.buf
        → length (held c.buf) + v.buf_len c.buf < 2 ^ 32
        → Received evs e w (all_of oss) later
    unfolding handle_all
    handle_all-Received [] [] later e c w reads count next all ample other here to_tx i room fits =
        record {
          engine = e;
          conn = c;
          world = w;
          ended = refl;
          is_there = here;
          messages = sym (append-nil (got w));
          left = next;
          in_step = i;
          only = Only-same t e;
        }
    handle_all-Received [] (os ∷ oss) later e c w reads count next all ample other here to_tx i room
          fits =
        absurd (omega arith)
    handle_all-Received (ev ∷ evs) [] later e c w reads count next all ample other here to_tx i room
          fits =
        absurd (omega arith)
    handle_all-Received (can_read u hint ∷ evs) (os ∷ oss) later e c w (at, open_still, reads) count
          next ((whole, enough, few), all) ample other here to_tx i room fits =
        let (buf, w₁, read, brought, taken, quiet, rest, _) =
          brings c.sock c.buf w os (oss ++ later) next (omega (arith, few, room)) in
        let size = ap length brought ∙ length-append (held c.buf) (encoded v tx peer os) in
        let (c', w', handled, now, later_on, _, i', fits', room', _, to_tx') =
          readable-InStep v tx peer fuel t _ c to_tx buf os w w₁ read quiet whole brought refl
            (omega (arith, fits, size, taken)) enough i e hint other here open_still ample in
        onward (can_read u hint) evs e c' w w' os (all_of oss) later
          (can_read_lem u hint e _ w w' at handled) now
          (handle_all-Received evs oss later (record e { conns = l.store e.conns t c' }) c' w' reads
            (omega arith) (later_on ∙ rest) all ample other (l.store-same e.conns t c c' here)
            to_tx' i' room' fits')
    handle_all-Received (can_write u ∷ evs) (os ∷ oss) later e c w reads count next all ample other
          here to_tx i room fits =
        absurd reads
    handle_all-Received (notified m ∷ evs) (os ∷ oss) later e c w reads count next all ample other
          here to_tx i room fits =
        absurd reads
    handle_all-Received (timed_out u ∷ evs) (os ∷ oss) later e c w reads count next all ample other
          here to_tx i room fits =
        absurd reads
