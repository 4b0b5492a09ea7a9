-- ===== src/Pipeline/Echo/System/Starting.antt =====
-- The system before its first step.
use rx_rust.Base.{ℕ, ◌+◌, ◌%◌, ◌^◌, ◌<◌, ◌≤◌, ◌≡◌, refl, false, some, [], length, All, arith}
use rx_rust.Effect.{done}
use rx_rust.Reactor.Services.{Kinds, Services, Slabs}
use rx_rust.Reactor.Engine.{Conn}
use rx_rust.Reactor.Engine.Receiving.{Peer, least, encoded, InStep}
use rx_rust.Reactor.Engine.Loop.Received.{all_of}
use rx_rust.Pipeline.Echo.{Numbered}
use rx_rust.Pipeline.Echo.Wire.{buffered}
use rx_rust.Pipeline.Echo.System.{State, Comes}
use rx_rust.Pipeline.Echo.System.Taking.{running, linking, linking-running}
use rx_rust.Pipeline.Echo.System.Flow.{Flow}

-- How a system begins.
pub starts :
    (k : Kinds) {l : Slabs} (v : Services (buffered k)) (tx : k.Tx) (peer : Peer v tx)
    {K L Dtx R : Type 0} (tick : K → ℕ × K) (print : Numbered k.Buf → L → L) (t tok : ℕ) (dtx : Dtx)
    (rx : R) (s : State k l K L Dtx R) (c c' : Conn (buffered k))
    → l.contains s.engine.listeners t ≡ false
    → l.get s.engine.conns t ≡ some c
    → c.conn_tx ≡ tx
    → InStep v tx peer c.buf c.marker
    → l.get s.engine.conns tok ≡ some c'
    → c'.outbuf ≡ []
    → peer.out s.world ≡ []
    → least s.engine.config ≤ s.engine.config.read_buf_sz % 2 ^ 32
    → least s.engine.config ≤ v.buf_len c.buf
    → All (Comes k v tx peer s.engine.config) (peer.unread s.world)
    → length (peer.held c.buf) + v.buf_len c.buf < 2 ^ 32
    → linking tick print tok dtx rx (s.channel, (s.clock, s.log, s.asked))
      ≡ (done s.coupler, (s.channel, (s.clock, s.log, s.asked)))
    → s.channel ≡ []
    → s.asked ≡ []
    → Flow k v tx peer tick print t tok dtx rx
        (encoded v tx peer (all_of (peer.unread s.world)))
        (length (all_of (peer.unread s.world)))
        s
starts k v tx peer tick print t tok dtx rx s c c' other here to_tx i there idle silent ample room
      whole fits linked none_waits none_asked =
    let start : s.coupler ≡ running tick print tok dtx rx 0 =
      cc (linking-running tick print tok dtx rx (s.channel, (s.clock, s.log, s.asked))) in
    record {
      read_conn = c;
      out_conn = c';
      asked_for = [];
      waiting = [];
      count = 0;
      other = other;
      here = here;
      there = there;
      to_tx = to_tx;
      in_step = i;
      ample = ample;
      room = room;
      whole = whole;
      fits = fits;
      linked = start;
      channel = none_waits;
      asked = none_asked;
      bytes = rw (silent, idle) refl;
      few = rw idle (omega arith);
    }
