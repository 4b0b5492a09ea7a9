-- ===== src/Pipeline/Echo/System/Sending.antt =====
-- What the handlers of `notify` and `writable` do takes messages from what the event loop was asked
-- to send to the wire.
use mathlib.Core.List.{append_assoc}
use rx_rust.Base.{
  ℕ, ◌+◌, ◌≤◌, ◌≡◌, ◌≢◌, refl, sym, ap, ◌∙◌, List, [], ◌∷◌, ◌++◌, map, length, length-append, arith,
}
use rx_rust.Effect.{done, ok}
use rx_rust.Reactor.Connection.{StreamBuf}
use rx_rust.Reactor.Draining.{Wrote, queued}
use rx_rust.Reactor.Services.{Kinds, Services, Slabs}
use rx_rust.Reactor.Engine.{Conn, EngineInner}
use rx_rust.Reactor.Engine.Events.{flush}
use rx_rust.Reactor.Engine.Sending.{flush-Flushed, queued-append}
use rx_rust.Reactor.Engine.Framing.{notify-keeps, writable-keeps}
use rx_rust.Reactor.Engine.Receiving.{Peer, encoded}
use rx_rust.Reactor.Engine.Loop.{Event, can_write, notified, handle}
use rx_rust.Reactor.Engine.Loop.Sent.{Anything, rounds_lem, notified_lem, can_write_lem}
use rx_rust.Reactor.Engine.Loop.Received.{all_of}
use rx_rust.Pipeline.Echo.{Numbered}
use rx_rust.Pipeline.Echo.Wire.{buffered}
use rx_rust.Pipeline.Echo.System.{State}
use rx_rust.Pipeline.Echo.System.Flow.{Flow, sent_back}

-- The first of several values that come of others.
pub first_of :
    {A B : Type 0} (g : A → B) (y : B) (ys : List B) (xs : List A)
    → y ∷ ys ≡ map g xs
    → (x : A) × (rest : List A) × (xs ≡ x ∷ rest) × (y ≡ g x) × (ys ≡ map g rest)
first_of g y ys [] e = absurd cc
first_of g y ys (x ∷ xs) e = (x, xs, refl, cc, cc)

module _ (k : Kinds) (v : Services (buffered k)) (tx : k.Tx) (peer : Peer v tx) where
  open peer use {unread, out}

  registers :
      (s : k.Sock) (t : ℕ) (i : k.Interest) (w : k.World)
      → (w' : k.World) × (v.reregister s t i w ≡ (done (ok tt), w'))
        × (out w' ≡ out w)
        × Anything w' t i
  registers s t i w = let (w', e, _, _, same) = peer.registers s t i w in (w', e, same, tt)

  registers-unread :
      (s : k.Sock) (t : ℕ) (i : k.Interest) (w : k.World)
      → unread (v.reregister s t i w).1 ≡ unread w
  registers-unread s t i w = let (w', e, _, same, _) = peer.registers s t i w in rw e same

module _ (k : Kinds) {l : Slabs} (v : Services (buffered k)) (tx : k.Tx) (peer : Peer v tx)
    {K L Dtx R : Type 0} (tick : K → ℕ × K) (print : Numbered k.Buf → L → L) (t tok fuel : ℕ)
    (dtx : Dtx) (rx : R) (apart : tok ≢ t) (total : List ℕ) (messages : ℕ)
    (enough : 2 + messages + length total ≤ fuel)
    (plain : (b : k.Buf) → peer.encode b ≡ v.io.bytes b)
    (wrote : (s : k.Sock) (b : k.Buf) (w : k.World) → Wrote v.io peer.out b w (v.write s b w))
    (left_alone : (s : k.Sock) (b : k.Buf) (w : k.World)
      → peer.unread (v.write s b w).1 ≡ peer.unread w) where
  open peer use {unread, out}

  abbrev Inv : State k l K L Dtx R → Type 0
  Inv = Flow k v tx peer tick print t tok dtx rx total messages

  -- What is to be read after an event that is about sending.
  abbrev pending : State k l K L Dtx R → List k.Buf → List k.Buf → List k.Buf
  pending s asked waiting = asked ++ (waiting ++ all_of (unread s.world))

  flushed-ends :
      (s : State k l K L Dtx R) (f : Inv s) (ev : Event (buffered k)) (c₁ : Conn (buffered k))
      (asked_for : List k.Buf) (bs : List (StreamBuf k.Buf))
      → ((c' : Conn (buffered k)) (w₁ : k.World)
          → flush v fuel tok c₁ s.world ≡ (done c', w₁)
          → handle v fuel ev s.engine s.world
            ≡ (done (record s.engine { conns = l.store s.engine.conns tok c' }), w₁))
      → unread (handle v fuel ev s.engine s.world).1 ≡ unread s.world
      → (out s.world ++ queued v.io out c₁.outbuf)
          ++ encoded v tx peer (pending s asked_for f.waiting)
        ≡ total
      → length c₁.outbuf + length (pending s asked_for f.waiting) ≤ messages
      → bs ≡ map (sent_back tok) asked_for
      → (e' : EngineInner (buffered k) l) × (w' : k.World) × (handle v fuel ev s.engine s.world
          ≡ (done e', w'))
        × (unread w' ≡ unread s.world)
        × Inv (record s { engine = e'; world = w'; asked = bs })
  flushed-ends s f ev c₁ asked_for bs handles keeps bytes few asked =
      let r = flush-Flushed v out Anything wrote (registers k v tx peer) fuel tok c₁ s.world (
        omega (
          arith,
          enough,
          few,
          rounds_lem v out c₁.outbuf,
          ap length bytes,
          length-append (out s.world ++ queued v.io out c₁.outbuf)
              (encoded v tx peer (pending s asked_for f.waiting)),
          length-append (out s.world) (queued v.io out c₁.outbuf),
        )) in
      let c' = r.conn in
      let after : EngineInner (buffered k) l = record s.engine {
        conns = l.store s.engine.conns tok c';
      } in
      let ended = handles c' r.world r.ended in
      let left : unread r.world ≡ unread s.world = ap (λ r. unread r.1) (sym ended) ∙ keeps in
      (
        after,
        r.world,
        ended,
        left,
        record {
          read_conn = f.read_conn;
          out_conn = c';
          asked_for = asked_for;
          waiting = f.waiting;
          count = f.count;
          other = f.other;
          here = l.store-other s.engine.conns tok t c' (λ e. apart (sym e)) ∙ f.here;
          there = l.store-same s.engine.conns tok f.out_conn c' f.there;
          to_tx = f.to_tx;
          in_step = f.in_step;
          ample = f.ample;
          room = f.room;
          whole = rw left f.whole;
          fits = f.fits;
          linked = f.linked;
          channel = f.channel;
          asked = asked;
          bytes = rw (left, r.bytes) bytes;
          few = rw left (omega (arith, few, r.shorter));
        },
      )

  -- The first message that the event loop was asked to send goes to the end of the write queue, and
  -- as much as the socket takes to the wire.
  pub sends-ends :
      (s : State k l K L Dtx R) (f : Inv s) (b : StreamBuf k.Buf) (bs : List (StreamBuf k.Buf))
      → s.asked ≡ b ∷ bs
      → (e' : EngineInner (buffered k) l) × (w' : k.World) × (handle v fuel
            (notified b)
            s.engine
            s.world
          ≡ (done e', w'))
        × (unread w' ≡ unread s.world)
        × Inv (record s { engine = e'; world = w'; asked = bs })
  unfolding handle
  sends-ends s f b bs next =
      let (m, rest, split, first, others) =
        first_of (sent_back tok) b bs f.asked_for (sym next ∙ f.asked) in
      let out₀ = f.out_conn.outbuf in
      let later = rest ++ (f.waiting ++ all_of (unread s.world)) in
      let moved : (out s.world ++ queued v.io out (out₀ ++ b ∷ [])) ++ encoded v tx peer later
          ≡ (out s.world ++ queued v.io out out₀) ++ encoded v tx peer (m ∷ later) =
        ap (λ q. (out s.world ++ q) ++ encoded v tx peer later)
          (queued-append v out Anything wrote (registers k v tx peer) out₀ b)
        ∙ ap (λ (xs : List ℕ). xs ++ encoded v tx peer later)
            (sym (append_assoc (out s.world) (queued v.io out out₀) (v.io.bytes b.buf)))
        ∙ append_assoc (out s.world ++ queued v.io out out₀) (v.io.bytes b.buf)
            (encoded v tx peer later)
        ∙ ap (λ xs. (out s.world ++ queued v.io out out₀) ++ (xs ++ encoded v tx peer later))
            (ap (λ b. v.io.bytes b.buf) first ∙ sym (plain m)) in
      flushed-ends s f (notified b) (record f.out_conn { outbuf = out₀ ++ b ∷ [] }) rest bs
        (λ c' w₁.
          notified_lem v out Anything fuel tok wrote (registers k v tx peer) b s.engine f.out_conn
            c' s.world w₁ (ap (λ m. m.token) first) f.there)
        (notify-keeps v unread left_alone (registers-unread k v tx peer) s.engine fuel s.world b)
        (moved
          ∙ ap
              (λ ms.
                (out s.world ++ queued v.io out out₀)
                ++ encoded v tx peer (ms ++ (f.waiting ++ all_of (unread s.world))))
              (sym split)
          ∙ f.bytes)
        (omega (
          arith,
          f.few,
          length-append out₀ (b ∷ []),
          ap (λ ms. length (ms ++ (f.waiting ++ all_of (unread s.world)))) split,
        ))
        others

  pub sends-Flow :
      (s : State k l K L Dtx R) (f : Inv s) (b : StreamBuf k.Buf) (bs : List (StreamBuf k.Buf))
      (e' : EngineInner (buffered k) l) (w' : k.World)
      → s.asked ≡ b ∷ bs
      → handle v fuel (notified b) s.engine s.world ≡ (done e', w')
      → Inv (record s { engine = e'; world = w'; asked = bs })
  sends-Flow s f b bs e' w' next handled =
      let (e₁, w₁, ended, _, flow) = sends-ends s f b bs next in
      let engine : e₁ ≡ e' = cc in let world : w₁ ≡ w' = cc in rw (← engine, ← world) flow

  -- As much of the write queue as the socket takes goes to the wire.
  pub writes-Flow :
      (s : State k l K L Dtx R) (f : Inv s) (e' : EngineInner (buffered k) l) (w' : k.World)
      → handle v fuel (can_write tok) s.engine s.world ≡ (done e', w')
      → Inv (record s { engine = e'; world = w' })
  unfolding handle
  writes-Flow s f e' w' handled =
      let (e₁, w₁, ended, _, flow) =
        flushed-ends s f (can_write tok) f.out_conn f.asked_for s.asked
          (λ c' w₁.
            can_write_lem v out Anything fuel tok wrote (registers k v tx peer) tok s.engine
              f.out_conn c' s.world w₁ refl f.there)
          (writable-keeps v unread left_alone (registers-unread k v tx peer) s.engine fuel s.world
            tok)
          f.bytes f.few f.asked in
      let engine : e₁ ≡ e' = cc in let world : w₁ ≡ w' = cc in rw (← engine, ← world) flow
