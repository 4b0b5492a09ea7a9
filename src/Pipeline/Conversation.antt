-- ===== src/Pipeline/Conversation.antt =====
-- Two engines of src/reactor.rs and the wire between them: what one is asked to send, the other
-- hands to its receiver.
use mathlib.Core.List.{append-nil}
use rx_rust.Base.{
  ℕ, ◌+◌, ◌%◌, ◌^◌, ◌<◌, ◌≤◌, ◌≡◌, refl, sym, ap, ◌∙◌, false, inl, some, List, [], ◌∷◌, ◌++◌, map,
  length, length-append, append-cancel, All, All-append, arith,
}
use rx_rust.Effect.{done, ok}
use rx_rust.Reactor.Draining.{Wrote, queued}
use rx_rust.Reactor.Parsing.{addressed}
use rx_rust.Reactor.Services.{Kinds, Services, Slabs}
use rx_rust.Reactor.Engine.{Conn, EngineInner, NetEngineConfig}
use rx_rust.Reactor.Engine.Receiving.{Peer, least, encoded, InStep}
use rx_rust.Reactor.Engine.Loop.{Event, handle_all}
use rx_rust.Reactor.Engine.Loop.Sent.{Anything, Sends, to_send, Fits, handle_all-Sent}
use rx_rust.Reactor.Engine.Loop.Received.{Reads, Read, all_of, Brings, handle_all-Received}

-- The sender's engine.
module _ {k : Kinds} {l : Slabs} (v : Services k) (sent : k.World → List ℕ) (fuel t : ℕ)
    (wrote : (s : k.Sock) (b : k.Buf) (w : k.World) → Wrote v.io sent b w (v.write s b w))
    (registers : (s : k.Sock) (t : ℕ) (i : k.Interest) (w : k.World)
      → (w' : k.World) × (v.reregister s t i w ≡ (done (ok tt), w')) × (sent w' ≡ sent w)) where
  -- Once nothing waits, the wire has all that the engine was asked to send.
  sent_all :
      (evs : List (Event k)) (e e' : EngineInner k l) (c c' : Conn k) (w w' : k.World)
      → Sends t evs
      → l.get e.conns t ≡ some c
      → c.outbuf ≡ []
      → sent w ≡ []
      → Fits v sent fuel evs c w
      → handle_all v fuel evs e w ≡ (done e', w')
      → l.get e'.conns t ≡ some c'
      → c'.outbuf ≡ []
      → sent w' ≡ queued v.io sent (to_send evs)
  sent_all evs e e' c c' w w' s here idle silent fits ended there through =
      let r =
        handle_all-Sent v sent Anything fuel t wrote
          (λ s t i w. let (w', e, same) = registers s t i w in (w', e, same, tt)) evs e c w s here
          (inl idle) fits in
      let same : r.world ≡ w' = cc in
      let engine : r.engine ≡ e' = cc in
      let conn : r.conn ≡ c' = cc in
      let left : r.conn.outbuf ≡ [] = ap (λ c. c.outbuf) conn ∙ through in
      ap sent (sym same)
      ∙ sym (append-nil (sent r.world))
      ∙ ap (λ q. sent r.world ++ queued v.io sent q) (sym left)
      ∙ r.bytes
      ∙ rw (silent, idle) refl

-- The receiver's protocol: messages have one size, and are told apart by their bytes.
module _ {k : Kinds} (v : Services k) (tx : k.Tx) (peer : Peer v tx) where
  open peer use {encode, IsMessage}

  pub record Framed (size : ℕ) : Type 0 where
    pub positive : 0 < size
    pub sized : (o : k.Output) → IsMessage o → length (encode o) ≡ size
    pub injective : (o o' : k.Output) → IsMessage o → IsMessage o' → encode o ≡ encode o' → o ≡ o'

  encoded-injective :
      (size : ℕ) (f : Framed size) (os os' : List k.Output)
      → All IsMessage os
      → All IsMessage os'
      → encoded v tx peer os ≡ encoded v tx peer os'
      → os ≡ os'
  encoded-injective size f [] [] all all' e = refl
  encoded-injective size f [] (o ∷ os') all (is, all') e = absurd (
      omega (
        arith,
        f.positive,
        f.sized o is,
        ap length e,
        length-append (encode o) (encoded v tx peer os'),
      ))
  encoded-injective size f (o ∷ os) [] (is, all) all' e = absurd (
      omega (
        arith,
        f.positive,
        f.sized o is,
        ap length e,
        length-append (encode o) (encoded v tx peer os),
      ))
  encoded-injective size f (o ∷ os) (o' ∷ os') (is, all) (is', all') e =
      let (front, back) =
        append-cancel (encode o) (encode o') (f.sized o is ∙ sym (f.sized o' is')) e in
      let first = f.injective o o' is is' front in
      let rest = encoded-injective size f os os' all all' back in
      ap (λ x. x ∷ os) first ∙ ap (◌∷◌ o') rest

  all_of-IsMessage :
      (fuel : ℕ) (cfg : NetEngineConfig k) (oss : List (List k.Output))
      → All (Read v tx peer fuel cfg) oss
      → All IsMessage (all_of oss)
  all_of-IsMessage fuel cfg [] all = tt
  all_of-IsMessage fuel cfg (os ∷ oss) ((is, few, short), all) =
      All-append IsMessage os (all_of oss) is (all_of-IsMessage fuel cfg oss all)

-- Both engines; the primed one receives.
module _ {k k' : Kinds} {l l' : Slabs} (v : Services k) (sent : k.World → List ℕ)
    (wrote : (s : k.Sock) (b : k.Buf) (w : k.World) → Wrote v.io sent b w (v.write s b w))
    (registers : (s : k.Sock) (t : ℕ) (i : k.Interest) (w : k.World)
      → (w' : k.World) × (v.reregister s t i w ≡ (done (ok tt), w')) × (sent w' ≡ sent w))
    (v' : Services k') (tx : k'.Tx) (peer : Peer v' tx) (brings : Brings v' tx peer) (size : ℕ)
    (framed : Framed v' tx peer size) (fuel t fuel' t' : ℕ) where
  -- Where sockets write as they should, a new registration leaves the wire alone, the buffers, the
  -- protocol and the event loop of the receiving engine answer as they should, its messages have
  -- one size and are told apart by their bytes, and a read of it brings the whole messages that
  -- come next: one engine handles messages to be sent on a connection, and events that its socket
  -- can be written, in any order, over a wire that was silent, and with fuel for all bytes and
  -- buffers; nothing waits on the connection before or after that; the buffers hold the bytes of
  -- some messages, and what they put on the wire is what the other engine's reads bring, one for
  -- each of the events that it handles, with fuel for one round more than a read brings messages,
  -- none of which has more bytes than the least room that the configuration asks for, with that room
  -- in the read buffer and in a buffer that is made, none of them with the news that the other end
  -- has hung up, on a connection whose marker stands behind all bytes in its read buffer, which are,
  -- with the room behind them, fewer than 2 ^ 32. Then the receiver has been sent these messages, in their order, each once, under the token of its
  -- connection, and what later reads bring is still to come.
  pub conversation :
      (evs : List (Event k)) (e e₁ : EngineInner k l) (c c₁ : Conn k) (w w₁ : k.World)
      (evs' : List (Event k')) (e' : EngineInner k' l') (c' : Conn k') (w' : k'.World)
      (os : List k'.Output) (oss later : List (List k'.Output))
      → Sends t evs
      → l.get e.conns t ≡ some c
      → c.outbuf ≡ []
      → sent w ≡ []
      → Fits v sent fuel evs c w
      → handle_all v fuel evs e w ≡ (done e₁, w₁)
      → l.get e₁.conns t ≡ some c₁
      → c₁.outbuf ≡ []
      → All peer.IsMessage os
      → queued v.io sent (to_send evs) ≡ encoded v' tx peer os
      → encoded v' tx peer (all_of oss) ≡ sent w₁
      → Reads v' t' evs'
      → length evs' ≡ length oss
      → peer.unread w' ≡ oss ++ later
      → All (Read v' tx peer fuel' e'.config) oss
      → least e'.config ≤ e'.config.read_buf_sz % 2 ^ 32
      → l'.contains e'.listeners t' ≡ false
      → l'.get e'.conns t' ≡ some c'
      → c'.conn_tx ≡ tx
      → InStep v' tx peer c'.buf c'.marker
      → least e'.config ≤ v'.buf_len c'.buf
      → length (peer.held c'.buf) + v'.buf_len c'.buf < 2 ^ 32
      → (e₂ : EngineInner k' l') × (w₂ : k'.World) × (handle_all v' fuel' evs' e' w'
          ≡ (done e₂, w₂))
        × (peer.got w₂ ≡ peer.got w' ++ map (addressed t') os)
        × (peer.unread w₂ ≡ later)
  conversation evs e e₁ c c₁ w w₁ evs' e' c' w' os oss later s here idle silent fits ended there
        through whole carries arrived reads count next all ample other here' to_tx i room small =
      let wire =
        sent_all v sent fuel t wrote registers evs e e₁ c c₁ w w₁ s here idle silent fits ended
          there through in
      let same : all_of oss ≡ os =
        encoded-injective v' tx peer size framed (all_of oss) os
          (all_of-IsMessage v' tx peer fuel' e'.config oss all) whole (arrived ∙ wire ∙ carries) in
      let r =
        handle_all-Received v' tx peer fuel' t' brings evs' oss later e' c' w' reads count next all
          ample other here' to_tx i room small in
      (
        r.engine,
        r.world,
        r.ended,
        r.messages ∙ ap (λ os. peer.got w' ++ map (addressed t') os) same,
        r.left,
      )
