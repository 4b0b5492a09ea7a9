-- ===== src/Pipeline/Echo/Wire.antt =====
-- The echo of src/test/test.rs between two connections of one engine: what the bytes that come in
-- on one of them put on the other.
use mathlib.Core.List.{append-nil}
use rx_rust.Base.{
  ℕ, ◌+◌, ◌%◌, ◌^◌, ◌<◌, ◌≤◌, ◌≡◌, ◌≢◌, refl, sym, ap, ◌∙◌, false, inl, some, List, [], ◌∷◌, ◌++◌,
  map, length, All,
}
use rx_rust.Effect.{done, ok}
use rx_rust.Reactor.Draining.{Wrote, queued}
use rx_rust.Reactor.Parsing.{addressed}
use rx_rust.Reactor.Services.{Kinds, Services, Slabs}
use rx_rust.Reactor.Engine.{Conn, EngineInner}
use rx_rust.Reactor.Engine.Receiving.{Peer, least, encoded, InStep}
use rx_rust.Reactor.Engine.Loop.{Event, handle_all}
use rx_rust.Reactor.Engine.Loop.Sent.{Anything, Sends, to_send, Fits, handle_all-Sent}
use rx_rust.Reactor.Engine.Loop.Received.{Reads, Read, all_of, Brings, handle_all-Received}
use rx_rust.Pipeline.Echo.{Numbered}
use rx_rust.Pipeline.Echo.Answers.{returned}
use rx_rust.Pipeline.Echo.Bytes.{echoed, echoed-addressed}

-- A protocol whose messages are buffers, as those of `BufProtocol` are.
abbrev pub buffered : Kinds → Kinds
buffered k = record k { Output = k.Buf }

module _ (k : Kinds) (v : Services (buffered k)) (tx : k.Tx) (peer : Peer v tx)
    (plain : (b : k.Buf) → peer.encode b ≡ v.io.bytes b) (sent : k.World → List ℕ) where
  -- What goes back are the bytes that came.
  queued-returned :
      (tok token : ℕ) (bs : List k.Buf)
      → queued v.io sent (map (returned tok) (map (addressed token) bs)) ≡ encoded v tx peer bs
  queued-returned tok token [] = refl
  queued-returned tok token (b ∷ bs) = rw (plain b, queued-returned tok token bs) refl

  module _ {l : Slabs} (brings : Brings v tx peer)
      (wrote : (s : k.Sock) (b : k.Buf) (w : k.World) → Wrote v.io sent b w (v.write s b w))
      (registers : (s : k.Sock) (t : ℕ) (i : k.Interest) (w : k.World)
        → (w' : k.World) × (v.reregister s t i w ≡ (done (ok tt), w')) × (sent w' ≡ sent w)) where
    -- Where the far sides, the buffers, the protocol and the event loop answer as they should, and
    -- a message is its bytes: an engine handles events that the socket of one connection can be
    -- read, as many as there are reads to come, each of which brings whole messages, at none of
    -- which the other end has hung up, with the marker behind all bytes in the read buffer, which
    -- are, with the room behind them, fewer than 2 ^ 32, and no read with more bytes than the least
    -- room that the configuration asks for, which the read buffer has, and a buffer that is made;
    -- the echo takes what the receiver has been sent from its channel, whose sender is gone after that, with more
    -- rounds than messages, a clock that always answers, and a log and an event loop that take all
    -- that they are given; and the engine handles what the echo has given the event loop, in that
    -- order, with events between these that the socket of another connection, on which nothing
    -- waited, can be written, in any places, with fuel for all messages, bytes and buffers. Then
    -- the echo ends, and so does the handling of all events; and the bytes that have gone out on
    -- the other connection, behind those that were on the wire, followed by those that still wait
    -- on it, are the bytes of all messages that came in, in their order.
    pub echo-wire :
        {K L Dtx R : Type 0} (tick : K → ℕ × K) (print : Numbered k.Buf → L → L) (dtx : Dtx)
        (srv_rx : R) (rounds : ℕ) (clock : K) (log : L) (fuel t tok : ℕ)
        (evs evs' : List (Event (buffered k))) (oss later : List (List k.Buf))
        (e e₁ : EngineInner (buffered k) l) (c c' : Conn (buffered k)) (w w₁ : k.World)
        → Reads v t evs
        → length evs ≡ length oss
        → peer.unread w ≡ oss ++ later
        → All (Read v tx peer fuel e.config) oss
        → least e.config ≤ e.config.read_buf_sz % 2 ^ 32
        → l.contains e.listeners t ≡ false
        → l.get e.conns t ≡ some c
        → c.conn_tx ≡ tx
        → InStep v tx peer c.buf c.marker
        → least e.config ≤ v.buf_len c.buf
        → length (peer.held c.buf) + v.buf_len c.buf < 2 ^ 32
        → peer.got w ≡ []
        → handle_all v fuel evs e w ≡ (done e₁, w₁)
        → length (all_of oss) < rounds
        → Sends tok evs'
        → to_send evs' ≡ (echoed v.io tick print tok dtx srv_rx rounds (peer.got w₁) clock log).1.2
        → tok ≢ t
        → l.get e.conns tok ≡ some c'
        → c'.outbuf ≡ []
        → Fits v sent fuel evs' c' w₁
        → ((echoed v.io tick print tok dtx srv_rx rounds (peer.got w₁) clock log).0 ≡ done tt)
          × ((e₂ : EngineInner (buffered k) l) × (c₂ : Conn (buffered k)) × (w₂ : k.World)
              × (handle_all v fuel evs' e₁ w₁ ≡ (done e₂, w₂))
              × (l.get e₂.conns tok ≡ some c₂)
              × (sent w₂ ++ queued v.io sent c₂.outbuf ≡ sent w₁ ++ encoded v tx peer (all_of oss)))
    echo-wire tick print dtx srv_rx rounds clock log fuel t tok evs evs' oss later e e₁ c c' w w₁
          reads count next all ample other here to_tx i room small idle ended enough s to_send_all
          apart there waits fits =
        let items = all_of oss in
        let r =
          handle_all-Received v tx peer fuel t brings evs oss later e c w reads count next all ample
            other here to_tx i room small in
        let same_world : r.world ≡ w₁ = cc in
        let same : r.engine ≡ e₁ = cc in
        let got : peer.got w₁ ≡ map (addressed t) items =
          ap peer.got (sym same_world) ∙ r.messages ∙ rw idle refl in
        let (ends, back) =
          echoed-addressed v.io tick print tok t dtx srv_rx rounds items clock log enough _
            (ap (λ ms. echoed v.io tick print tok dtx srv_rx rounds ms clock log) got) in
        let there' : l.get e₁.conns tok ≡ some c' =
          ap (λ (e : EngineInner (buffered k) l). l.get e.conns tok) (sym same)
          ∙ r.only.others tok apart
          ∙ there in
        let out =
          handle_all-Sent v sent Anything fuel tok wrote
            (λ s t i w. let (w', e, same) = registers s t i w in (w', e, same, tt)) evs' e₁ c' w₁ s
            there' (inl waits) fits in
        (
          ends,
          (
            out.engine,
            out.conn,
            out.world,
            out.ended,
            out.is_there,
            out.bytes
                ∙ ap (λ q. (sent w₁ ++ queued v.io sent q) ++ queued v.io sent (to_send evs')) waits
                ∙ ap (λ xs. xs ++ queued v.io sent (to_send evs')) (append-nil (sent w₁))
                ∙ ap (λ q. sent w₁ ++ queued v.io sent q) (to_send_all ∙ back)
                ∙ ap (◌++◌ (sent w₁)) (queued-returned tok t items),
          ),
        )
