-- ===== src/Reactor/Engine/Sending.antt =====
-- What becomes of the bytes that an engine is asked to send.
use mathlib.Core.List.{append_assoc, append-nil}
use rx_rust.Base.{
  ℕ, ◌≤◌, ◌<◌, ◌≡◌, refl, sym, ap, ◌∙◌, Bool-cases, inl, inr, some, List, [], ◌∷◌, ◌++◌, length,
  arith, ltb,
}
use rx_rust.Effect.{Outcome, done, panicked, out_of_fuel, ok, continue}
use rx_rust.Reactor.Connection.{StreamBuf, drain}
use rx_rust.Reactor.Draining.{Wrote, queued, rounds, Drained, drain-Drained}
use rx_rust.Reactor.Services.{Kinds, Services, Slabs}
use rx_rust.Reactor.Engine.{Conn, EngineInner}
use rx_rust.Reactor.Engine.Events.{watch, await_write, flush, writable, notify}

-- `Polled` says of a world for what mio watches the socket of a token.
module _ {k : Kinds} (v : Services k) (sent : k.World → List ℕ)
    (Polled : k.World → ℕ → k.Interest → Type 0) where
  -- The call is done. The bytes on the wire and those that still wait are, one behind the other,
  -- what they were, and a connection with bytes that wait has the interest in writing, and is
  -- registered for it.
  pub record Flushed (token : ℕ) (c : Conn k) (w : k.World) (r : Outcome (Conn k) × k.World)
      : Type 0 where
    pub conn : Conn k
    pub world : k.World
    pub ended : r ≡ (done conn, world)
    pub bytes : sent world ++ queued v.io sent conn.outbuf ≡ sent w ++ queued v.io sent c.outbuf
    pub shorter : length conn.outbuf ≤ length c.outbuf
    pub armed :
        0 < length conn.outbuf
        → (conn.interest ≡ v.interest_insert c.interest v.writable_event)
          × Polled world token conn.interest

  module _ (wrote : (s : k.Sock) (b : k.Buf) (w : k.World) → Wrote v.io sent b w (v.write s b w))
      (registers : (s : k.Sock) (t : ℕ) (i : k.Interest) (w : k.World)
        → (w' : k.World) × (v.reregister s t i w ≡ (done (ok tt), w'))
          × (sent w' ≡ sent w)
          × Polled w' t i) where
    await_write-Flushed :
        (token : ℕ) (c : Conn k) (w : k.World) (r : Outcome (List (StreamBuf k.Buf)) × k.World)
        → Drained v.io sent c.outbuf w r
        → Flushed token c w (continue r (await_write v token c))
    unfolding await_write watch
    await_write-Flushed token c w (done out, w₁) d = elim (Bool-cases (ltb 0 (length out))) [
      | inl more ↦
          let i = v.interest_insert c.interest v.writable_event in
          let (w₂, e, same, polled) = registers c.sock token i w₁ in
          record {
            conn = record c { outbuf = out; interest = i };
            world = w₂;
            ended = rw (more, e) refl;
            bytes = rw same d.0;
            shorter = d.1;
            armed = λ h. (refl, polled);
          }
      | inr no_more ↦ record {
        conn = record c { outbuf = out };
        world = w₁;
        ended = rw no_more refl;
        bytes = d.0;
        shorter = d.1;
        armed = λ h. absurd (ground arith);
      }
    ]
    await_write-Flushed token c w (panicked, w₁) d = absurd d
    await_write-Flushed token c w (out_of_fuel, w₁) d = absurd d

    pub flush-Flushed :
        (fuel token : ℕ) (c : Conn k) (w : k.World)
        → rounds v.io sent c.outbuf ≤ fuel
        → Flushed token c w (flush v fuel token c w)
    unfolding flush
    flush-Flushed fuel token c w h =
        await_write-Flushed token c w (drain v.io v.write fuel c.sock c.outbuf w)
          (drain-Drained v.io sent v.write wrote fuel c.sock c.outbuf w h)

    pub queued-append :
        (out : List (StreamBuf k.Buf)) (m : StreamBuf k.Buf)
        → queued v.io sent (out ++ m ∷ []) ≡ queued v.io sent out ++ v.io.bytes m.buf
    queued-append [] m = append-nil (v.io.bytes m.buf)
    queued-append (b ∷ out) m =
        ap (◌++◌ (v.io.bytes b.buf)) (queued-append out m)
        ∙ sym (append_assoc (v.io.bytes b.buf) (queued v.io sent out) (v.io.bytes m.buf))

    module _ {l : Slabs} (e : EngineInner k l) (c : Conn k) (fuel : ℕ) (w : k.World) where
      -- Where sockets write as they should, a new registration succeeds and leaves the wire alone,
      -- and the fuel is enough for the queue, a message for a connection that is there is taken:
      -- the handler ends, the engine has the connection with what is left of its queue, and the
      -- bytes on the wire followed by those that wait are what they were, followed by the message.
      -- A connection with bytes that wait is registered for writing.
      pub notify-Flushed :
          (m : StreamBuf k.Buf)
          → l.get e.conns m.token ≡ some c
          → rounds v.io sent (c.outbuf ++ m ∷ []) ≤ fuel
          → (c' : Conn k) × (w' : k.World) × (notify v fuel e m w
              ≡ (done (record e { conns = l.store e.conns m.token c' }), w'))
            × (l.get (l.store e.conns m.token c') m.token ≡ some c')
            × (sent w' ++ queued v.io sent c'.outbuf
                ≡ (sent w ++ queued v.io sent c.outbuf) ++ v.io.bytes m.buf)
            × (0 < length c'.outbuf
                → (c'.interest ≡ v.interest_insert c.interest v.writable_event)
                  × Polled w' m.token c'.interest)
      unfolding notify
      notify-Flushed m here h =
          let f = flush-Flushed fuel m.token (record c { outbuf = c.outbuf ++ m ∷ [] }) w h in
          (
            f.conn,
            f.world,
            rw (here, notify, f.ended) refl,
            l.store-same e.conns m.token c f.conn here,
            f.bytes
                ∙ rw (queued-append c.outbuf m)
                    (sym (append_assoc (sent w) (queued v.io sent c.outbuf) (v.io.bytes m.buf))),
            f.armed,
          )

      -- Where sockets write as they should, a new registration succeeds and leaves the wire alone,
      -- and the fuel is enough for the queue, an event that says that the socket of a connection
      -- that is there can be written is handled: the handler ends, and the engine has the
      -- connection with what is left of its queue: the bytes on the wire followed by those that
      -- wait are what they were. A connection with bytes that wait is registered for writing.
      pub writable-Flushed :
          (token : ℕ)
          → l.get e.conns token ≡ some c
          → rounds v.io sent c.outbuf ≤ fuel
          → (c' : Conn k) × (w' : k.World) × (writable v fuel e token w
              ≡ (done (record e { conns = l.store e.conns token c' }), w'))
            × (l.get (l.store e.conns token c') token ≡ some c')
            × (sent w' ++ queued v.io sent c'.outbuf ≡ sent w ++ queued v.io sent c.outbuf)
            × (0 < length c'.outbuf
                → (c'.interest ≡ v.interest_insert c.interest v.writable_event)
                  × Polled w' token c'.interest)
      unfolding writable
      writable-Flushed token here h =
          let f = flush-Flushed fuel token c w h in
          (
            f.conn,
            f.world,
            rw (here, writable, f.ended) refl,
            l.store-same e.conns token c f.conn here,
            f.bytes,
            f.armed,
          )
