-- ===== src/Pipeline/Echo/System/Completed.antt =====
-- The engine and the echo can always bring all messages to the connection that the echo writes.
use mathlib.Core.List.{append-nil}
use rx_rust.Base.{
  ℕ, ◌+◌, ◌%◌, ◌^◌, ◌<◌, ◌≤◌, ◌≡◌, ◌≢◌, refl, sym, ◌∙◌, true, false, some, List, [], ◌∷◌, ◌++◌, map,
  length, All,
}
use rx_rust.Effect.{done}
use rx_rust.Reactor.Connection.{StreamBuf, ProtoMsg}
use rx_rust.Reactor.Draining.{Wrote, queued}
use rx_rust.Reactor.Parsing.{addressed}
use rx_rust.Reactor.Services.{Kinds, Services, Slabs}
use rx_rust.Reactor.Engine.{Conn}
use rx_rust.Reactor.Engine.Receiving.{Peer, least, encoded, InStep}
use rx_rust.Reactor.Engine.Loop.Received.{all_of, Brings}
use rx_rust.Pipeline.Echo.{Numbered}
use rx_rust.Pipeline.Echo.Answers.{returned}
use rx_rust.Pipeline.Echo.Wire.{buffered}
use rx_rust.Pipeline.Echo.System.{State, Comes, Steps, reads, takes, sends, stop, further, both}
use rx_rust.Pipeline.Echo.System.Taking.{running, next-running, linking}
use rx_rust.Pipeline.Echo.System.Flow.{Flow}
use rx_rust.Pipeline.Echo.System.Reading.{reads-ends}
use rx_rust.Pipeline.Echo.System.Sending.{sends-ends}
use rx_rust.Pipeline.Echo.System.Conserved.{takes-Flow}
use rx_rust.Pipeline.Echo.System.Starting.{starts}

module _ (k : Kinds) {l : Slabs} (v : Services (buffered k)) (tx : k.Tx) (peer : Peer v tx)
    {K L Dtx R : Type 0} (tick : K → ℕ × K) (print : Numbered k.Buf → L → L) (t tok fuel : ℕ)
    (dtx : Dtx) (rx : R) (total : List ℕ) (messages : ℕ) (apart : tok ≢ t)
    (enough : 2 + messages + length total ≤ fuel) (brings : Brings v tx peer)
    (plain : (b : k.Buf) → peer.encode b ≡ v.io.bytes b)
    (wrote : (s : k.Sock) (b : k.Buf) (w : k.World) → Wrote v.io peer.out b w (v.write s b w))
    (left_alone : (s : k.Sock) (b : k.Buf) (w : k.World)
      → peer.unread (v.write s b w).1 ≡ peer.unread w) where
  abbrev Inv : State k l K L Dtx R → Type 0
  Inv = Flow k v tx peer tick print t tok dtx rx total messages

  abbrev Runs : State k l K L Dtx R → State k l K L Dtx R → Type 0
  Runs s = Steps k v tx peer tick print t tok fuel s []

  -- All that is to come is read.
  read_all :
      (hint : k.Hint) (oss : List (List k.Buf)) (s : State k l K L Dtx R)
      → v.contains_huphint hint ≡ false
      → peer.unread s.world ≡ oss
      → Inv s
      → (s' : State k l K L Dtx R) × Runs s s' × Inv s' × (peer.unread s'.world ≡ [])
  read_all hint [] s open_still coming f = (s, stop, f, coming)
  read_all hint (os ∷ oss) s open_still coming f =
      let (e', w', ended, got, left, f') =
        reads-ends k v tx peer tick print t tok fuel dtx rx apart total messages enough brings s f
          hint os oss open_still coming in
      let s₁ : State k l K L Dtx R = record s {
        engine = e';
        world = w';
        channel = s.channel ++ map (addressed t) os;
      } in
      let (s', steps, f₂, none_left) = read_all hint oss s₁ open_still left f' in
      (
        s',
        both k v tx peer tick print t tok fuel
            (further stop
              (reads hint os oss (map (addressed t) os) e' w' open_still coming ended got))
            steps,
        f₂,
        none_left,
      )

  -- All that waits in the channel is taken.
  take_all :
      (ms : List (ProtoMsg k.Buf)) (s : State k l K L Dtx R)
      → s.channel ≡ ms
      → Inv s
      → (s' : State k l K L Dtx R) × Runs s s'
        × Inv s'
        × (peer.unread s'.world ≡ peer.unread s.world)
        × (s'.channel ≡ [])
  take_all [] s waits f = (s, stop, f, refl, waits)
  take_all (m ∷ ms) s waits f =
      let (log', taken) = next-running tick print tok dtx rx f.count m ms s.clock s.log s.asked in
      let p' = running tick print tok dtx rx ((f.count + 1) % 2 ^ 64) in
      let asked' = s.asked ++ returned tok m ∷ [] in
      let took = rw (← f.linked, ← waits) at taken in
      let f' =
        takes-Flow k v tx peer tick print t tok fuel dtx rx total messages s f m ms ms p' true
          (tick s.clock).1 log' asked' waits took in
      let s₁ : State k l K L Dtx R = record s {
        coupler = p';
        channel = ms;
        clock = (tick s.clock).1;
        log = log';
        asked = asked';
      } in
      let (s', steps, f₂, still, none_wait) = take_all ms s₁ refl f' in
      (
        s',
        both k v tx peer tick print t tok fuel
            (further stop (takes m ms ms p' true (tick s.clock).1 log' asked' waits took)) steps,
        f₂,
        still,
        none_wait,
      )

  -- All that the event loop was asked to send is sent.
  send_all :
      (bs : List (StreamBuf k.Buf)) (s : State k l K L Dtx R)
      → s.asked ≡ bs
      → Inv s
      → (s' : State k l K L Dtx R) × Runs s s'
        × Inv s'
        × (peer.unread s'.world ≡ peer.unread s.world)
        × (s'.channel ≡ s.channel)
        × (s'.asked ≡ [])
  send_all [] s next f = (s, stop, f, refl, refl, next)
  send_all (b ∷ bs) s next f =
      let (e', w', ended, left, f') =
        sends-ends k v tx peer tick print t tok fuel dtx rx apart total messages enough plain wrote
          left_alone s f b bs next in
      let s₁ : State k l K L Dtx R = record s { engine = e'; world = w'; asked = bs } in
      let (s', steps, f₂, still, kept, none_asked) = send_all bs s₁ refl f' in
      (
        s',
        both k v tx peer tick print t tok fuel (further stop (sends b bs e' w' next ended)) steps,
        f₂,
        still ∙ left,
        kept,
        none_asked,
      )

none_of : {A B : Type 0} (g : A → B) (xs : List A) → [] ≡ map g xs → xs ≡ []
none_of g [] e = refl
none_of g (x ∷ xs) e = absurd cc

-- Where the far sides, the buffers, the protocol and the event loop answer as they should, a call
-- that writes to a socket leaves alone what has arrived to be read, and a message is its bytes: an
-- engine has a connection whose marker stands behind all bytes in its read buffer, which are, with
-- the room behind them, fewer than 2 ^ 32, on which whole messages have arrived, in reads of no more
-- bytes than the least room that the configuration asks for, with that room in the read buffer and
-- in a buffer that is made; and it has another connection, on which nothing waits; the echo has
-- been linked, with a clock that always answers, and a log and an event loop that take all that they
-- are given; nothing has been written, or is in the channel or with the event loop; there is fuel
-- for all messages and bytes; and an event can say that the other end has not hung up. Then the
-- engine and the echo can go on, while no more messages arrive, until nothing is left to be read, in
-- the channel, or with the event loop; and the bytes that have been written to the other connection,
-- and behind them those that wait on it, are then the bytes of the messages that had arrived at the
-- beginning.
pub completes :
    (k : Kinds) {l : Slabs} (v : Services (buffered k)) (tx : k.Tx) (peer : Peer v tx)
    {K L Dtx R : Type 0} (tick : K → ℕ × K) (print : Numbered k.Buf → L → L) (t tok fuel : ℕ)
    (dtx : Dtx) (rx : R) (s : State k l K L Dtx R) (c c' : Conn (buffered k)) (hint : k.Hint)
    → tok ≢ t
    → Brings v tx peer
    → ((b : k.Buf) → peer.encode b ≡ v.io.bytes b)
    → ((s : k.Sock) (b : k.Buf) (w : k.World) → Wrote v.io peer.out b w (v.write s b w))
    → ((s : k.Sock) (b : k.Buf) (w : k.World) → peer.unread (v.write s b w).1 ≡ peer.unread w)
    → l.contains s.engine.listeners t ≡ false
    → l.get s.engine.conns t ≡ some c
    → c.conn_tx ≡ tx
    → InStep v tx peer c.buf c.marker
    → l.get s.engine.conns tok ≡ some c'
    → c'.outbuf ≡ []
    → peer.out s.world ≡ []
    → least s.engine.config ≤ s.engine.config.read_buf_sz % 2 ^ 32
    → least s.engine.config ≤ v.buf_len c.buf
    → All (Comes k v tx peer s.engine.config) (peer.unread s.world)
    → length (peer.held c.buf) + v.buf_len c.buf < 2 ^ 32
    → linking tick print tok dtx rx (s.channel, (s.clock, s.log, s.asked))
      ≡ (done s.coupler, (s.channel, (s.clock, s.log, s.asked)))
    → s.channel ≡ []
    → s.asked ≡ []
    → 2
        + length (all_of (peer.unread s.world))
        + length (encoded v tx peer (all_of (peer.unread s.world)))
      ≤ fuel
    → v.contains_huphint hint ≡ false
    → (s' : State k l K L Dtx R) × (out : Conn (buffered k)) × Steps k v tx peer tick print t tok
        fuel s [] s'
      × (peer.unread s'.world ≡ [])
      × (s'.channel ≡ [])
      × (s'.asked ≡ [])
      × (l.get s'.engine.conns tok ≡ some out)
      × (peer.out s'.world ++ queued v.io peer.out out.outbuf
          ≡ encoded v tx peer (all_of (peer.unread s.world)))
completes k v tx peer tick print t tok fuel dtx rx s c c' hint apart brings plain wrote left_alone
      other here to_tx i there idle silent ample room whole fits linked none_waits none_asked enough
      open_still =
    let total = encoded v tx peer (all_of (peer.unread s.world)) in
    let messages = length (all_of (peer.unread s.world)) in
    let f =
      starts k v tx peer tick print t tok dtx rx s c c' other here to_tx i there idle silent ample
        room whole fits linked none_waits none_asked in
    let (s₁, read, f₁, unread₁) =
      read_all k v tx peer tick print t tok fuel dtx rx total messages apart enough brings plain
        wrote left_alone hint (peer.unread s.world) s open_still refl f in
    let (s₂, taken, f₂, unread₂, channel₂) =
      take_all k v tx peer tick print t tok fuel dtx rx total messages apart enough brings plain
        wrote left_alone s₁.channel s₁ refl f₁ in
    let (s', sent, f', unread', channel', asked') =
      send_all k v tx peer tick print t tok fuel dtx rx total messages apart enough brings plain
        wrote left_alone s₂.asked s₂ refl f₂ in
    let left : peer.unread s'.world ≡ [] = unread' ∙ unread₂ ∙ unread₁ in
    let channel : s'.channel ≡ [] = channel' ∙ channel₂ in
    let asked_for : f'.asked_for ≡ [] = none_of _ f'.asked_for (sym asked' ∙ f'.asked) in
    let waiting : f'.waiting ≡ [] = none_of _ f'.waiting (sym channel ∙ f'.channel) in
    let on_wire = peer.out s'.world ++ queued v.io peer.out f'.out_conn.outbuf in
    let all_sent : on_wire ++ [] ≡ total = rw (asked_for, waiting, left) at f'.bytes in
    (
      s',
      f'.out_conn,
      both k v tx peer tick print t tok fuel (both k v tx peer tick print t tok fuel read taken)
          sent,
      left,
      channel,
      asked',
      f'.there,
      sym (append-nil on_wire) ∙ all_sent,
    )
