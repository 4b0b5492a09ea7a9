-- ===== src/Pipeline/Echo/System/Conserved.antt =====
-- No byte is lost, doubled or overtaken between the connection that the echo reads and the one
-- that it writes, in whatever order the engine and the echo go on.
use mathlib.Core.List.{append_assoc, append-nil}
use rx_rust.Base.{
  ℕ, ◌+◌, ◌%◌, ◌^◌, ◌<◌, ◌≤◌, ◌≡◌, ◌≢◌, sym, ap, ◌∙◌, Bool, false, some, List, [], ◌∷◌, ◌++◌, map,
  length, length-append, All, arith, subst,
}
use rx_rust.Effect.{done}
use rx_rust.Processor.Tap.{lift}
use rx_rust.Publisher.Coupler.{next}
use rx_rust.Publisher.Coupler.Delivery.{receiver}
use rx_rust.Reactor.Connection.{StreamBuf, ProtoMsg}
use rx_rust.Reactor.Draining.{Wrote, queued}
use rx_rust.Reactor.Parsing.{addressed}
use rx_rust.Reactor.Services.{Kinds, Services, Slabs}
use rx_rust.Reactor.Engine.{Conn}
use rx_rust.Reactor.Engine.Receiving.{Peer, least, encoded, InStep}
use rx_rust.Reactor.Engine.Loop.Received.{all_of, Brings, length-encoded}
use rx_rust.Pipeline.Queues.{enqueue, pop, peek}
use rx_rust.Pipeline.Echo.{Numbered, map1}
use rx_rust.Pipeline.Echo.Answers.{now, logging, accepting, returned}
use rx_rust.Pipeline.Echo.Wire.{buffered}
use rx_rust.Pipeline.Echo.System.{
  Echo, State, Comes, Step, reads, takes, sends, writes, Steps, stop, further, arrives,
}
use rx_rust.Pipeline.Echo.System.Taking.{running, next-running, linking}
use rx_rust.Pipeline.Echo.System.Flow.{Flow, sent_back, sent_back-append}
use rx_rust.Pipeline.Echo.System.Reading.{reads-Flow}
use rx_rust.Pipeline.Echo.System.Arriving.{encoded-append, arrives-Flow}
use rx_rust.Pipeline.Echo.System.Starting.{starts}
use rx_rust.Pipeline.Echo.System.Sending.{first_of, sends-Flow, writes-Flow}

module _ (k : Kinds) {l : Slabs} (v : Services (buffered k)) (tx : k.Tx) (peer : Peer v tx)
    {K L Dtx R : Type 0} (tick : K → ℕ × K) (print : Numbered k.Buf → L → L) (t tok fuel : ℕ)
    (dtx : Dtx) (rx : R) (total : List ℕ) (messages : ℕ) where
  open peer use {unread, out, held, IsMessage}

  abbrev Inv : State k l K L Dtx R → Type 0
  Inv = Flow k v tx peer tick print t tok dtx rx total messages

  -- A message goes from the channel to what the event loop is asked to send.
  pub takes-Flow :
      (s : State k l K L Dtx R) (f : Inv s) (m : ProtoMsg k.Buf)
      (ms channel' : List (ProtoMsg k.Buf)) (p' : Echo K L Dtx R k.Buf) (more : Bool) (clock' : K)
      (log' : L) (asked' : List (StreamBuf k.Buf))
      → s.channel ≡ m ∷ ms
      → next
          (lift (map1 (now tick) (accepting enqueue) (logging print)))
          (receiver pop peek)
          s.coupler
          (s.channel, (s.clock, s.log, s.asked))
        ≡ (done (p', more), (channel', (clock', log', asked')))
      → Inv (record s {
        coupler = p';
        channel = channel';
        clock = clock';
        log = log';
        asked = asked';
      })
  takes-Flow s f m ms channel' p' more clock' log' asked' waits taken =
      let (b, rest, split, first, others) =
        first_of (addressed t) m ms f.waiting (sym waits ∙ f.channel) in
      let (log₁, e) = next-running tick print tok dtx rx f.count m ms s.clock s.log s.asked in
      let same = rw (f.linked, waits) at taken in
      let coupler : running tick print tok dtx rx ((f.count + 1) % 2 ^ 64) ≡ p' = cc in
      let channel : ms ≡ channel' = cc in
      let asked : s.asked ++ returned tok m ∷ [] ≡ asked' = cc in
      let same_pending : (f.asked_for ++ b ∷ []) ++ (rest ++ all_of (unread s.world))
          ≡ f.asked_for ++ (f.waiting ++ all_of (unread s.world)) =
        append_assoc f.asked_for (b ∷ []) (rest ++ all_of (unread s.world))
        ∙ ap (λ ws. f.asked_for ++ (ws ++ all_of (unread s.world))) (sym split) in
      record {
        read_conn = f.read_conn;
        out_conn = f.out_conn;
        asked_for = f.asked_for ++ b ∷ [];
        waiting = rest;
        count = (f.count + 1) % 2 ^ 64;
        other = f.other;
        here = f.here;
        there = f.there;
        to_tx = f.to_tx;
        in_step = f.in_step;
        ample = f.ample;
        room = f.room;
        whole = f.whole;
        fits = f.fits;
        linked = sym coupler;
        channel = sym channel ∙ others;
        asked =
            sym asked
            ∙ ap (λ (ms : List (StreamBuf k.Buf)). ms ++ returned tok m ∷ []) f.asked
            ∙ ap (λ m. map (sent_back tok) f.asked_for ++ returned tok m ∷ []) first
            ∙ sent_back-append tok f.asked_for b;
        bytes = rw same_pending f.bytes;
        few = rw same_pending f.few;
      }

  module _ (apart : tok ≢ t) (enough : 2 + messages + length total ≤ fuel)
      (brings : Brings v tx peer) (plain : (b : k.Buf) → peer.encode b ≡ v.io.bytes b)
      (wrote : (s : k.Sock) (b : k.Buf) (w : k.World) → Wrote v.io out b w (v.write s b w))
      (left_alone : (s : k.Sock) (b : k.Buf) (w : k.World)
        → unread (v.write s b w).1 ≡ unread w) where
    Step-Flow :
        (s s' : State k l K L Dtx R) → Step k v tx peer tick print t tok fuel s s' → Inv s → Inv s'
    Step-Flow s _ (reads hint os later new e' w' open_still coming handled now) f =
        reads-Flow k v tx peer tick print t tok fuel dtx rx apart total messages enough brings s f
          hint os later new e' w' open_still coming handled now
    Step-Flow s _ (takes m ms channel' p' more clock' log' asked' waits taken) f =
        takes-Flow s f m ms channel' p' more clock' log' asked' waits taken
    Step-Flow s _ (sends b bs e' w' asked handled) f =
        sends-Flow k v tx peer tick print t tok fuel dtx rx apart total messages enough plain wrote
          left_alone s f b bs e' w' asked handled
    Step-Flow s _ (writes e' w' handled) f =
        writes-Flow k v tx peer tick print t tok fuel dtx rx apart total messages enough plain wrote
          left_alone s f e' w' handled

module _ (k : Kinds) (v : Services (buffered k)) (tx : k.Tx) (peer : Peer v tx) (fuel : ℕ)
    (total : List ℕ) (messages : ℕ) where
  -- There is fuel for what was there and what came.
  abbrev Enough : List k.Buf → Type 0
  Enough came = 2 + (messages + length came) + length (total ++ encoded v tx peer came) ≤ fuel

  fewer : (came os : List k.Buf) → Enough (came ++ os) → Enough came
  fewer came os enough = omega (
    arith,
    enough,
    length-append came os,
    length-append total (encoded v tx peer (came ++ os)),
    length-append total (encoded v tx peer came),
    length-encoded v tx peer came os,
  )

module _ (k : Kinds) {l : Slabs} (v : Services (buffered k)) (tx : k.Tx) (peer : Peer v tx)
    {K L Dtx R : Type 0} (tick : K → ℕ × K) (print : Numbered k.Buf → L → L) (t tok fuel : ℕ)
    (dtx : Dtx) (rx : R) (total : List ℕ) (messages : ℕ) (apart : tok ≢ t)
    (brings : Brings v tx peer) (plain : (b : k.Buf) → peer.encode b ≡ v.io.bytes b)
    (wrote : (s : k.Sock) (b : k.Buf) (w : k.World) → Wrote v.io peer.out b w (v.write s b w))
    (left_alone : (s : k.Sock) (b : k.Buf) (w : k.World)
      → peer.unread (v.write s b w).1 ≡ peer.unread w) where
  -- The invariant, once `came` has arrived.
  abbrev After : List k.Buf → State k l K L Dtx R → Type 0
  After came =
      Flow k v tx peer tick print t tok dtx rx (total ++ encoded v tx peer came)
        (messages + length came)

  Steps-Flow :
      (s : State k l K L Dtx R) (came : List k.Buf) (s' : State k l K L Dtx R)
      → Steps k v tx peer tick print t tok fuel s came s'
      → Enough k v tx peer fuel total messages came
      → After [] s
      → After came s'
  Steps-Flow s _ _ stop enough f = f
  Steps-Flow s came s' (further {s' = s₁} steps step) enough f =
      Step-Flow k v tx peer tick print t tok fuel dtx rx (total ++ encoded v tx peer came)
        (messages + length came) apart enough brings plain wrote left_alone s₁ s' step
        (Steps-Flow s came s₁ steps enough f)
  Steps-Flow s _ _ (arrives {came = came} {s' = s₁} os w' steps comes next same aside) enough f =
      let f₁ =
        Steps-Flow s came s₁ steps (fewer k v tx peer fuel total messages came os enough) f in
      let f' =
        arrives-Flow k v tx peer tick print t tok dtx rx (total ++ encoded v tx peer came)
          (messages + length came) s₁ f₁ os w' comes next aside in
      let bytes : (total ++ encoded v tx peer came) ++ encoded v tx peer os
          ≡ total ++ encoded v tx peer (came ++ os) =
        append_assoc total (encoded v tx peer came) (encoded v tx peer os)
        ∙ ap (◌++◌ total) (sym (encoded-append k v tx peer came os)) in
      let count : messages + length came + length os ≡ messages + length (came ++ os) =
        omega (arith, length-append came os) in
      rw (bytes, count) at f'

-- Where the far sides, the buffers, the protocol and the event loop answer as they should, a call
-- that writes to a socket leaves alone what has arrived to be read, and a message is its bytes: an
-- engine has a connection whose marker stands behind all bytes in its read buffer, which are, with
-- the room behind them, fewer than 2 ^ 32, on which whole messages have arrived, in reads of no more
-- bytes than the least room that the configuration asks for, with that room in the read buffer and
-- in a buffer that is made; and it has another connection, on which nothing waits; the echo has
-- been linked, with a clock that always answers, and a log and an event loop that take all that they
-- are given; nothing has been written, or is in the channel or with the event loop; and there is
-- fuel for all messages and bytes. Then the engine and the echo go on, in any number of steps and in
-- any order: the first connection can be read, and the other end has not hung up; the echo takes a
-- message from the channel; the engine is given what the echo first asked for; the other connection
-- can be written; and between them more such messages arrive on the first connection, also such as
-- were written to the other one. After all of them, the bytes that have been written to the other
-- connection, those that wait on it, the messages that the event loop was asked to send, those in
-- the channel, and those still to be read, one behind the other, are the bytes of the messages that
-- had arrived at the beginning and, behind them, of those that arrived since.
pub conserved :
    (k : Kinds) {l : Slabs} (v : Services (buffered k)) (tx : k.Tx) (peer : Peer v tx)
    {K L Dtx R : Type 0} (tick : K → ℕ × K) (print : Numbered k.Buf → L → L) (t tok fuel : ℕ)
    (dtx : Dtx) (rx : R) (s : State k l K L Dtx R) (came : List k.Buf) (s' : State k l K L Dtx R)
    (c c' : Conn (buffered k))
    → tok ≢ t
    → Brings v tx peer
    → ((b : k.Buf) → peer.encode b ≡ v.io.bytes b)
    → ((s : k.Sock) (b : k.Buf) (w : k.World) → Wrote v.io peer.out b w (v.write s b w))
    → ((s : k.Sock) (b : k.Buf) (w : k.World) → peer.unread (v.write s b w).1 ≡ peer.unread w)
    → l.contains s.engine.listeners t ≡ false
    → l.get s.engine.conns t ≡ some c
    → c.conn_tx ≡ tx
    → InStep v tx peer c.buf c.marker
    → l.get s.engine.conns tok ≡ some c'
    → c'.outbuf ≡ []
    → peer.out s.world ≡ []
    → least s.engine.config ≤ s.engine.config.read_buf_sz % 2 ^ 32
    → least s.engine.config ≤ v.buf_len c.buf
    → All (Comes k v tx peer s.engine.config) (peer.unread s.world)
    → length (peer.held c.buf) + v.buf_len c.buf < 2 ^ 32
    → linking tick print tok dtx rx (s.channel, (s.clock, s.log, s.asked))
      ≡ (done s.coupler, (s.channel, (s.clock, s.log, s.asked)))
    → s.channel ≡ []
    → s.asked ≡ []
    → 2
        + length (all_of (peer.unread s.world) ++ came)
        + length (encoded v tx peer (all_of (peer.unread s.world) ++ came))
      ≤ fuel
    → Steps k v tx peer tick print t tok fuel s came s'
    → (out : Conn (buffered k)) × (asked_for : List k.Buf) × (waiting : List k.Buf) × (l.get
          s'.engine.conns tok
        ≡ some out)
      × (s'.asked ≡ map (sent_back tok) asked_for)
      × (s'.channel ≡ map (addressed t) waiting)
      × ((peer.out s'.world ++ queued v.io peer.out out.outbuf)
            ++ encoded v tx peer (asked_for ++ (waiting ++ all_of (peer.unread s'.world)))
          ≡ encoded v tx peer (all_of (peer.unread s.world) ++ came))
conserved k v tx peer tick print t tok fuel dtx rx s came s' c c' apart brings plain wrote
      left_alone other here to_tx i there idle silent ample room whole fits linked none_waits
      none_asked enough steps =
    let first = all_of (peer.unread s.world) in
    let begins =
      starts k v tx peer tick print t tok dtx rx s c c' other here to_tx i there idle silent ample
        room whole fits linked none_waits none_asked in
    let bytes : encoded v tx peer first ≡ encoded v tx peer first ++ [] = sym (append-nil _) in
    let count : length first ≡ length first + 0 = omega arith in
    let total = encoded-append k v tx peer first came in
    let f =
      Steps-Flow k v tx peer tick print t tok fuel dtx rx (encoded v tx peer first) (length first)
        apart brings plain wrote left_alone s came s' steps
        (omega (arith, enough, length-append first came, ap length total))
        (subst (λ n. Flow k v tx peer tick print t tok dtx rx (encoded v tx peer first ++ []) n s)
          count
          (subst (λ bs. Flow k v tx peer tick print t tok dtx rx bs (length first) s) bytes
            begins)) in
    (f.out_conn, f.asked_for, f.waiting, f.there, f.asked, f.channel, f.bytes ∙ sym total)
