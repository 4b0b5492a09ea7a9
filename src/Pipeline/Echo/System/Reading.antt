-- ===== src/Pipeline/Echo/System/Reading.antt =====
-- A read of a socket takes messages from what is to be read to the channel.
use mathlib.Core.List.{append_assoc, map-append}
use rx_rust.Base.{
  ℕ, ◌+◌, ◌≤◌, ◌≡◌, ◌≢◌, refl, sym, ap, ◌∙◌, false, List, ◌∷◌, ◌++◌, map, length, length-append,
  append-cancel, All, arith, subst,
}
use rx_rust.Effect.{done}
use rx_rust.Reactor.Connection.{ProtoMsg}
use rx_rust.Reactor.Parsing.{addressed}
use rx_rust.Reactor.Services.{Kinds, Services, Slabs}
use rx_rust.Reactor.Engine.{EngineInner}
use rx_rust.Reactor.Engine.Receiving.{Peer, encoded, readable-InStep}
use rx_rust.Reactor.Engine.Loop.{can_read, handle}
use rx_rust.Reactor.Engine.Loop.Received.{all_of, Brings, can_read_lem}
use rx_rust.Pipeline.Echo.{Numbered}
use rx_rust.Pipeline.Echo.Wire.{buffered}
use rx_rust.Pipeline.Echo.System.{State, Comes}
use rx_rust.Pipeline.Echo.System.Flow.{Flow}

module _ (k : Kinds) {l : Slabs} (v : Services (buffered k)) (tx : k.Tx) (peer : Peer v tx)
    {K L Dtx R : Type 0} (tick : K → ℕ × K) (print : Numbered k.Buf → L → L) (t tok fuel : ℕ)
    (dtx : Dtx) (rx : R) (apart : tok ≢ t) (total : List ℕ) (messages : ℕ)
    (enough : 2 + messages + length total ≤ fuel) (brings : Brings v tx peer) where
  open peer use {unread, held}

  abbrev Inv : State k l K L Dtx R → Type 0
  Inv = Flow k v tx peer tick print t tok dtx rx total messages

  -- The handler ends, the messages of the read go to the channel, and nothing else is lost.
  pub reads-ends :
      (s : State k l K L Dtx R) (f : Inv s) (hint : k.Hint) (os : List k.Buf)
      (later : List (List k.Buf))
      → v.contains_huphint hint ≡ false
      → unread s.world ≡ os ∷ later
      → (e' : EngineInner (buffered k) l) × (w' : k.World) × (handle v fuel
            (can_read t hint)
            s.engine
            s.world
          ≡ (done e', w'))
        × (peer.got w' ≡ peer.got s.world ++ map (addressed t) os)
        × (unread w' ≡ later)
        × Inv (record s { engine = e'; world = w'; channel = s.channel ++ map (addressed t) os })
  reads-ends s f hint os later open_still next =
      let c = f.read_conn in
      let pending = f.waiting ++ all_of (unread s.world) in
      let ((messages_next, few), messages_later) =
        subst (All (Comes k v tx peer s.engine.config)) next f.whole in
      let first : all_of (unread s.world) ≡ os ++ all_of later = ap all_of next in
      let (buf, w₁, read, brought, filled, quiet, rest, aside) =
        brings c.sock c.buf s.world os later next (omega (arith, few, f.room)) in
      let size : length (held buf) ≡ length (held c.buf) + length (encoded v tx peer os) =
        ap length brought ∙ length-append (held c.buf) (encoded v tx peer os) in
      let (c', w₂, ended, all_got, later_on, aside', i', fits', room', _, to_tx') =
        readable-InStep v tx peer fuel t _ c f.to_tx buf os s.world w₁ read quiet messages_next
          brought refl (omega (arith, f.fits, size, filled))
          (omega (
            arith,
            enough,
            f.few,
            length-append f.asked_for pending,
            length-append f.waiting (all_of (unread s.world)),
            ap length first,
            length-append os (all_of later),
          ))
          f.in_step s.engine hint f.other f.here open_still f.ample in
      let after : EngineInner (buffered k) l = record s.engine {
        conns = l.store s.engine.conns t c';
      } in
      let same = can_read_lem v tx peer fuel t brings t hint s.engine after s.world w₂ refl ended in
      let left : unread w₂ ≡ later = later_on ∙ rest in
      let same_pending : (f.waiting ++ os) ++ all_of (unread w₂) ≡ pending =
        append_assoc f.waiting os (all_of (unread w₂))
        ∙ ap (◌++◌ f.waiting) (ap (λ u. os ++ all_of u) left ∙ sym first) in
      (
        after,
        w₂,
        same,
        all_got,
        left,
        record {
          read_conn = c';
          out_conn = f.out_conn;
          asked_for = f.asked_for;
          waiting = f.waiting ++ os;
          count = f.count;
          other = f.other;
          here = l.store-same s.engine.conns t c c' f.here;
          there = l.store-other s.engine.conns t tok c' apart ∙ f.there;
          to_tx = to_tx';
          in_step = i';
          ample = f.ample;
          room = room';
          whole = subst (All (Comes k v tx peer s.engine.config)) (sym left) messages_later;
          fits = fits';
          linked = f.linked;
          channel =
              ap (λ ms. ms ++ map (addressed t) os) f.channel
              ∙ sym (map-append (addressed t) f.waiting os);
          asked = f.asked;
          bytes = rw (aside' ∙ aside, same_pending) f.bytes;
          few = rw same_pending f.few;
        },
      )

  pub reads-Flow :
      (s : State k l K L Dtx R) (f : Inv s) (hint : k.Hint) (os : List k.Buf)
      (later : List (List k.Buf)) (new : List (ProtoMsg k.Buf)) (e' : EngineInner (buffered k) l)
      (w' : k.World)
      → v.contains_huphint hint ≡ false
      → unread s.world ≡ os ∷ later
      → handle v fuel (can_read t hint) s.engine s.world ≡ (done e', w')
      → peer.got w' ≡ peer.got s.world ++ new
      → Inv (record s { engine = e'; world = w'; channel = s.channel ++ new })
  reads-Flow s f hint os later new e' w' open_still next handled now =
      let (e₁, w₁, ended, all_got, _, flow) = reads-ends s f hint os later open_still next in
      let engine : e₁ ≡ e' = cc in
      let world : w₁ ≡ w' = cc in
      let (_, same) =
        append-cancel (peer.got s.world) (peer.got s.world) refl
          (sym now ∙ ap peer.got (sym world) ∙ all_got) in
      rw (← engine, ← world, same) flow
