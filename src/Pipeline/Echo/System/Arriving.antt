-- ===== src/Pipeline/Echo/System/Arriving.antt =====
-- Messages arrive on the connection that the echo reads.
use mathlib.Core.List.{append_assoc}
use rx_rust.Base.{
  ℕ, ◌+◌, ◌≡◌, refl, sym, ap, ◌∙◌, List, [], ◌∷◌, ◌++◌, length, length-append, All, All-append,
  arith, subst,
}
use rx_rust.Reactor.Draining.{queued}
use rx_rust.Reactor.Services.{Kinds, Services, Slabs}
use rx_rust.Reactor.Engine.Receiving.{Peer, encoded}
use rx_rust.Reactor.Engine.Loop.Received.{all_of}
use rx_rust.Pipeline.Echo.{Numbered}
use rx_rust.Pipeline.Echo.Wire.{buffered}
use rx_rust.Pipeline.Echo.System.{State, Comes}
use rx_rust.Pipeline.Echo.System.Flow.{Flow}

all_of-append :
    {A : Type 0} (oss : List (List A)) (os : List A) → all_of (oss ++ os ∷ []) ≡ all_of oss ++ os
all_of-append [] [] = refl
all_of-append [] (o ∷ os) = ap (◌∷◌ o) (all_of-append [] os)
all_of-append (bs ∷ oss) os =
    ap (◌++◌ bs) (all_of-append oss os) ∙ sym (append_assoc bs (all_of oss) os)

module _ (k : Kinds) (v : Services (buffered k)) (tx : k.Tx) (peer : Peer v tx) where
  pub encoded-append :
      (os later : List k.Buf)
      → encoded v tx peer (os ++ later) ≡ encoded v tx peer os ++ encoded v tx peer later
  encoded-append [] later = refl
  encoded-append (o ∷ os) later =
      ap (◌++◌ (peer.encode o)) (encoded-append os later)
      ∙ sym (append_assoc (peer.encode o) (encoded v tx peer os) (encoded v tx peer later))

module _ (k : Kinds) {l : Slabs} (v : Services (buffered k)) (tx : k.Tx) (peer : Peer v tx)
    {K L Dtx R : Type 0} (tick : K → ℕ × K) (print : Numbered k.Buf → L → L) (t tok : ℕ) (dtx : Dtx)
    (rx : R) where
  open peer use {unread, out}

  -- What is to be conserved grows by what arrives.
  pub arrives-Flow :
      (total : List ℕ) (messages : ℕ) (s : State k l K L Dtx R)
      (f : Flow k v tx peer tick print t tok dtx rx total messages s) (os : List k.Buf)
      (w' : k.World)
      → Comes k v tx peer s.engine.config os
      → unread w' ≡ unread s.world ++ os ∷ []
      → out w' ≡ out s.world
      → Flow k v tx peer tick print t tok dtx rx
          (total ++ encoded v tx peer os)
          (messages + length os)
          (record s { world = w' })
  arrives-Flow total messages s f os w' comes next aside =
      let pending = f.asked_for ++ (f.waiting ++ all_of (unread s.world)) in
      let grown : f.asked_for ++ (f.waiting ++ all_of (unread w')) ≡ pending ++ os =
        ap (λ u. f.asked_for ++ (f.waiting ++ all_of u)) next
        ∙ ap (λ bs. f.asked_for ++ (f.waiting ++ bs)) (all_of-append (unread s.world) os)
        ∙ ap (◌++◌ f.asked_for) (sym (append_assoc f.waiting (all_of (unread s.world)) os))
        ∙ sym (append_assoc f.asked_for (f.waiting ++ all_of (unread s.world)) os) in
      let on_wire = out s.world ++ queued v.io out f.out_conn.outbuf in
      record {
        read_conn = f.read_conn;
        out_conn = f.out_conn;
        asked_for = f.asked_for;
        waiting = f.waiting;
        count = f.count;
        other = f.other;
        here = f.here;
        there = f.there;
        to_tx = f.to_tx;
        in_step = f.in_step;
        ample = f.ample;
        room = f.room;
        whole = subst (All (Comes k v tx peer s.engine.config)) (sym next) (
            All-append (Comes k v tx peer s.engine.config) (unread s.world) (os ∷ []) f.whole
              (comes, tt));
        fits = f.fits;
        linked = f.linked;
        channel = f.channel;
        asked = f.asked;
        bytes =
            ap
              (λ ws.
                (ws ++ queued v.io out f.out_conn.outbuf)
                ++ encoded v tx peer (f.asked_for ++ (f.waiting ++ all_of (unread w'))))
              aside
            ∙ ap (λ bs. on_wire ++ encoded v tx peer bs) grown
            ∙ ap (◌++◌ on_wire) (encoded-append k v tx peer pending os)
            ∙ sym (append_assoc on_wire (encoded v tx peer pending) (encoded v tx peer os))
            ∙ ap (λ (bs : List ℕ). bs ++ encoded v tx peer os) f.bytes;
        few = omega (arith, f.few, ap length grown, length-append pending os);
      }
