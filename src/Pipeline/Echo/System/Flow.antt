-- ===== src/Pipeline/Echo/System/Flow.antt =====
-- Where the bytes are that come in on the connection that the echo reads and go out on the one that
-- it writes.
use rx_rust.Base.{
  ℕ, ◌+◌, ◌%◌, ◌^◌, ◌<◌, ◌≤◌, ◌≡◌, refl, ap, false, some, List, [], ◌∷◌, ◌++◌, map, length, All,
}
use rx_rust.Reactor.Connection.{StreamBuf}
use rx_rust.Reactor.Draining.{queued}
use rx_rust.Reactor.Parsing.{addressed}
use rx_rust.Reactor.Services.{Kinds, Services, Slabs}
use rx_rust.Reactor.Engine.{Conn}
use rx_rust.Reactor.Engine.Receiving.{Peer, least, encoded, InStep}
use rx_rust.Reactor.Engine.Loop.Received.{all_of}
use rx_rust.Pipeline.Echo.{Numbered}
use rx_rust.Pipeline.Echo.Wire.{buffered}
use rx_rust.Pipeline.Echo.System.{State, Comes}
use rx_rust.Pipeline.Echo.System.Taking.{running}

-- A message as the echo asks for it.
abbrev pub sent_back : {B : Type 0} → ℕ → B → StreamBuf B
sent_back tok b = record { buf = b; token = tok }

pub sent_back-append :
    {B : Type 0} (tok : ℕ) (bs : List B) (b : B)
    → map (sent_back tok) bs ++ sent_back tok b ∷ [] ≡ map (sent_back tok) (bs ++ b ∷ [])
sent_back-append tok [] b = refl
sent_back-append tok (x ∷ bs) b = ap (◌∷◌ (sent_back tok x)) (sent_back-append tok bs b)

module _ (k : Kinds) {l : Slabs} (v : Services (buffered k)) (tx : k.Tx) (peer : Peer v tx)
    {K L Dtx R : Type 0} (tick : K → ℕ × K) (print : Numbered k.Buf → L → L) (t tok : ℕ) (dtx : Dtx)
    (rx : R) (total : List ℕ) (messages : ℕ) where
  open peer use {unread, held}

  -- The bytes on the wire and those that wait in the engine, followed by the messages that the event
  -- loop was asked to send, those in the channel, and those that are still to be read, are `total`.
  -- Beside it, what the handlers need and the echo keeps.
  pub record Flow (s : State k l K L Dtx R) : Type 0 where
    pub read_conn : Conn (buffered k)
    pub out_conn : Conn (buffered k)
    pub asked_for : List k.Buf
    pub waiting : List k.Buf
    pub count : ℕ
    pub other : l.contains s.engine.listeners t ≡ false
    pub here : l.get s.engine.conns t ≡ some read_conn
    pub there : l.get s.engine.conns tok ≡ some out_conn
    pub to_tx : read_conn.conn_tx ≡ tx
    pub in_step : InStep v tx peer read_conn.buf read_conn.marker
    pub ample : least s.engine.config ≤ s.engine.config.read_buf_sz % 2 ^ 32
    pub room : least s.engine.config ≤ v.buf_len read_conn.buf
    pub whole : All (Comes k v tx peer s.engine.config) (unread s.world)
    pub fits : length (held read_conn.buf) + v.buf_len read_conn.buf < 2 ^ 32
    pub linked : s.coupler ≡ running tick print tok dtx rx count
    pub channel : s.channel ≡ map (addressed t) waiting
    pub asked : s.asked ≡ map (sent_back tok) asked_for
    pub bytes :
        (peer.out s.world ++ queued v.io peer.out out_conn.outbuf)
          ++ encoded v tx peer (asked_for ++ (waiting ++ all_of (unread s.world)))
        ≡ total
    pub few :
        length out_conn.outbuf + length (asked_for ++ (waiting ++ all_of (unread s.world)))
        ≤ messages
