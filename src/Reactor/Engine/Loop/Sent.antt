-- ===== src/Reactor/Engine/Loop/Sent.antt =====
-- What becomes of the bytes of several messages, whatever the order of the events.
use mathlib.Core.List.{append_assoc, append-nil}
use rx_rust.Base.{
  ℕ, ◌+◌, ◌≤◌, ◌<◌, ◌≡◌, refl, sym, ap, ◌∙◌, ◌⊎◌, inl, inr, some, List, [], ◌∷◌, ◌++◌, length,
  length-append, subst, arith,
}
use rx_rust.Effect.{Outcome, done, ok}
use rx_rust.Reactor.Connection.{StreamBuf}
use rx_rust.Reactor.Draining.{Wrote, queued, rounds}
use rx_rust.Reactor.Services.{Kinds, Services, Slabs}
use rx_rust.Reactor.Engine.{Conn, EngineInner}
use rx_rust.Reactor.Engine.Events.{flush, writable, notify}
use rx_rust.Reactor.Engine.Isolation.{Only, Only-same, Only-store, Only-trans}
use rx_rust.Reactor.Engine.Sending.{Flushed, flush-Flushed, queued-append}
use rx_rust.Reactor.Engine.Loop.{
  Event, can_read, can_write, notified, timed_out, handle, handle_all,
}

-- The events are about sending, all on the connection of one token.
abbrev pub Sends : {k : Kinds} → ℕ → List (Event k) → Type 0
Sends t [] = Unit
Sends t (notified m ∷ evs) = (m.token ≡ t) × Sends t evs
Sends t (can_write u ∷ evs) = (u ≡ t) × Sends t evs
Sends t (can_read u hint ∷ evs) = ⊥
Sends t (timed_out u ∷ evs) = ⊥

-- The messages among them.
abbrev pub to_send : {k : Kinds} → List (Event k) → List (StreamBuf k.Buf)
to_send [] = []
to_send (notified m ∷ evs) = m ∷ to_send evs
to_send (can_write u ∷ evs) = to_send evs
to_send (can_read u hint ∷ evs) = to_send evs
to_send (timed_out u ∷ evs) = to_send evs

empty_or_not : {A : Type 0} (xs : List A) → (xs ≡ []) ⊎ (0 < length xs)
empty_or_not [] = inl refl
empty_or_not (x ∷ xs) = inr (omega arith)

module _ {k : Kinds} (v : Services k) (sent : k.World → List ℕ) where
  -- The bytes on the wire and those that wait behind them.
  abbrev pub stream : Conn k → k.World → List ℕ
  stream c w = sent w ++ queued v.io sent c.outbuf

  -- Enough rounds, for the queue as it is and for the messages to come.
  abbrev pub Fits : ℕ → List (Event k) → Conn k → k.World → Type 0
  Fits fuel evs c w =
      1
        + length c.outbuf
        + length (to_send evs)
        + length (stream c w)
        + length (queued v.io sent (to_send evs))
      ≤ fuel

  pub rounds_lem :
      (out : List (StreamBuf k.Buf))
      → rounds v.io sent out ≡ 1 + length out + length (queued v.io sent out)
  rounds_lem [] = refl
  rounds_lem (b ∷ out) =
      omega (arith, rounds_lem out, length-append (v.io.bytes b.buf) (queued v.io sent out))

-- Where it does not matter for what a socket is watched.
abbrev pub Anything : {W I : Type 0} → W → ℕ → I → Type 0
Anything w t i = Unit {0}

-- `Polled` says of a world for what mio watches the socket of a token.
module _ {k : Kinds} (v : Services k) (sent : k.World → List ℕ)
    (Polled : k.World → ℕ → k.Interest → Type 0) where
  -- Nothing waits, or mio watches the connection, for writing beside what else it was watched for.
  abbrev pub IsWatched : ℕ → Conn k → k.World → Type 0
  IsWatched t c w =
      (c.outbuf ≡ [])
      ⊎ ((i : k.Interest) × (c.interest ≡ v.interest_insert i v.writable_event)
          × Polled w t c.interest)

  Flushed-IsWatched :
      (t : ℕ) (c : Conn k) (w : k.World) (r : Outcome (Conn k) × k.World)
      (f : Flushed v sent Polled t c w r)
      → IsWatched t f.conn f.world
  Flushed-IsWatched t c w r f = elim (empty_or_not f.conn.outbuf) [
    | inl none_waits ↦ inl none_waits
    | inr some_wait ↦ let (insert, polled) = f.armed some_wait in inr (c.interest, insert, polled)
  ]

  module _ {l : Slabs} (fuel t : ℕ)
      (wrote : (s : k.Sock) (b : k.Buf) (w : k.World) → Wrote v.io sent b w (v.write s b w))
      (registers : (s : k.Sock) (t : ℕ) (i : k.Interest) (w : k.World)
        → (w' : k.World) × (v.reregister s t i w ≡ (done (ok tt), w'))
          × (sent w' ≡ sent w)
          × Polled w' t i) where
    -- What the events leave behind.
    pub record Sent (evs : List (Event k)) (e : EngineInner k l) (before : List ℕ) (w : k.World)
        : Type 0 where
      pub engine : EngineInner k l
      pub conn : Conn k
      pub world : k.World
      pub ended : handle_all v fuel evs e w ≡ (done engine, world)
      pub is_there : l.get engine.conns t ≡ some conn
      pub bytes : stream v sent conn world ≡ before ++ queued v.io sent (to_send evs)
      pub watched : IsWatched t conn world
      pub only : Only t e engine

    pub notified_lem :
        (m : StreamBuf k.Buf) (e : EngineInner k l) (c c' : Conn k) (w w' : k.World)
        → m.token ≡ t
        → l.get e.conns t ≡ some c
        → flush v fuel t (record c { outbuf = c.outbuf ++ m ∷ [] }) w ≡ (done c', w')
        → handle v fuel (notified m) e w ≡ (done (record e { conns = l.store e.conns t c' }), w')
    unfolding handle notify
    notified_lem m e c c' w w' at here ended =
        let c₁ = record c { outbuf = c.outbuf ++ m ∷ [] } in
        let ended' = subst (λ u. flush v fuel u c₁ w ≡ (done c', w')) (sym at) ended in
        let here' = subst (λ u. l.get e.conns u ≡ some c) (sym at) here in
        rw (here', notify, ended')
          (ap (λ u. (done (record e { conns = l.store e.conns u c' }), w')) at)

    pub can_write_lem :
        (u : ℕ) (e : EngineInner k l) (c c' : Conn k) (w w' : k.World)
        → u ≡ t
        → l.get e.conns t ≡ some c
        → flush v fuel t c w ≡ (done c', w')
        → handle v fuel (can_write u) e w ≡ (done (record e { conns = l.store e.conns t c' }), w')
    unfolding handle writable
    can_write_lem u e c c' w w' at here ended = rw (at, here, writable, at, ended) refl

    abbrev stored : EngineInner k l → Conn k → EngineInner k l
    stored e c = record e { conns = l.store e.conns t c }

    -- From the call of `flush` on; `c₁` is the connection with the new message in its queue.
    onward :
        (ev : Event k) (evs : List (Event k)) (e : EngineInner k l) (c c₁ : Conn k) (w : k.World)
        → Flushed v sent Polled t c₁ w (flush v fuel t c₁ w)
        → ((c' : Conn k) (w' : k.World)
            → flush v fuel t c₁ w ≡ (done c', w')
            → handle v fuel ev e w ≡ (done (stored e c'), w'))
        → stream v sent c₁ w ++ queued v.io sent (to_send evs)
          ≡ stream v sent c w ++ queued v.io sent (to_send (ev ∷ evs))
        → Fits v sent fuel evs c₁ w
        → ((c' : Conn k) (w' : k.World)
            → IsWatched t c' w'
            → Fits v sent fuel evs c' w'
            → Sent evs (stored e c') (stream v sent c' w') w')
        → Sent (ev ∷ evs) e (stream v sent c w) w
    unfolding handle_all
    onward ev evs e c c₁ w f handled same fits ih =
        let rest =
          ih f.conn f.world (Flushed-IsWatched t c₁ w _ f)
            (omega (arith, fits, f.shorter, ap length f.bytes)) in
        record {
          engine = rest.engine;
          conn = rest.conn;
          world = rest.world;
          ended = rw (handled f.conn f.world f.ended) rest.ended;
          is_there = rest.is_there;
          bytes =
              rest.bytes
              ∙ ap (λ (xs : List ℕ). xs ++ queued v.io sent (to_send evs)) f.bytes
              ∙ same;
          watched = rest.watched;
          only = Only-trans t e _ rest.engine (Only-store t e f.conn) rest.only;
        }

    -- Where sockets write as they should, and a new registration succeeds and leaves the wire
    -- alone, any number of messages for one connection, and of events that its socket can be
    -- written, in any order, are handled, with fuel for the bytes and the buffers that are there
    -- and those to come: the bytes on the wire followed by those that wait are what they were,
    -- followed by the messages, in their order. If bytes wait, mio watches the connection for writing, if
    -- that was so before; and all other connections, the listeners, the timeouts and
    -- the configuration are as they were.
    pub handle_all-Sent :
        (evs : List (Event k)) (e : EngineInner k l) (c : Conn k) (w : k.World)
        → Sends t evs
        → l.get e.conns t ≡ some c
        → IsWatched t c w
        → Fits v sent fuel evs c w
        → Sent evs e (stream v sent c w) w
    unfolding handle_all
    handle_all-Sent [] e c w s here i h = record {
      engine = e;
      conn = c;
      world = w;
      ended = refl;
      is_there = here;
      bytes = sym (append-nil (stream v sent c w));
      watched = i;
      only = Only-same t e;
    }
    handle_all-Sent (notified m ∷ evs) e c w (at, s) here i h =
        let c₁ = record c { outbuf = c.outbuf ++ m ∷ [] } in
        let later = queued v.io sent (to_send evs) in
        let grouped : stream v sent c₁ w ≡ stream v sent c w ++ v.io.bytes m.buf =
          ap (◌++◌ (sent w)) (queued-append v sent Polled wrote registers c.outbuf m)
          ∙ sym (append_assoc (sent w) (queued v.io sent c.outbuf) (v.io.bytes m.buf)) in
        let same : stream v sent c₁ w ++ later ≡ stream v sent c w ++ (v.io.bytes m.buf ++ later) =
          ap (λ (xs : List ℕ). xs ++ later) grouped
          ∙ append_assoc (stream v sent c w) (v.io.bytes m.buf) later in
        let fits : Fits v sent fuel evs c₁ w = omega (
          arith,
          h,
          length-append c.outbuf (m ∷ []),
          ap length grouped,
          length-append (stream v sent c w) (v.io.bytes m.buf),
          length-append (v.io.bytes m.buf) later,
        ) in
        onward (notified m) evs e c c₁ w
          (flush-Flushed v sent Polled wrote registers fuel t c₁ w (
            omega (
              arith,
              fits,
              rounds_lem v sent c₁.outbuf,
              length-append (sent w) (queued v.io sent c₁.outbuf),
            )))
          (λ c' w'. notified_lem m e c c' w w' at here) same fits
          (λ c' w' i' h'.
            handle_all-Sent evs (stored e c') c' w' s (l.store-same e.conns t c c' here) i' h')
    handle_all-Sent (can_write u ∷ evs) e c w (at, s) here i h =
        onward (can_write u) evs e c c w
          (flush-Flushed v sent Polled wrote registers fuel t c w (
            omega (
              arith,
              h,
              rounds_lem v sent c.outbuf,
              length-append (sent w) (queued v.io sent c.outbuf),
            )))
          (λ c' w'. can_write_lem u e c c' w w' at here) refl h
          (λ c' w' i' h'.
            handle_all-Sent evs (stored e c') c' w' s (l.store-same e.conns t c c' here) i' h')
    handle_all-Sent (can_read u hint ∷ evs) e c w s here i h = absurd s
    handle_all-Sent (timed_out u ∷ evs) e c w s here i h = absurd s
