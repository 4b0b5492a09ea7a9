-- ===== src/Pipeline/Printing.antt =====
-- The first two closures of the test in src/lib.rs, `main`: `gen` links an iterator, two `Map`s and
-- a `Decoupler`, and `out` a `Coupler` and a `StdoutSubscriber`, with a channel between them. The
-- test runs neither.
use rx_rust.Base.{ℕ, ◌<◌, ◌≡◌, refl, ap, sym, ◌∙◌, Option, some, List, [], ◌∷◌, ◌++◌, map, length}
use rx_rust.Effect.{Outcome, done, panicked, out_of_fuel, Action, ◌>>=◌}
use rx_rust.Reactive.{run}
use rx_rust.Reactive.Feed.{deliver, session, mapped}
use rx_rust.Sendable.{channel_sendable}
use rx_rust.Processor.Tap.{lift, effects}
use rx_rust.Processor.Map.{Map, map_subscriber}
use rx_rust.Publisher.IterPublisher.{IterPublisher, iter_publisher}
use rx_rust.Publisher.IterPublisher.Delivery.{Yields}
use rx_rust.Publisher.Coupler
use rx_rust.Publisher.Coupler.{Coupler, coupler_publisher}
use rx_rust.Publisher.Coupler.Delivery.{receiver, watched}
use rx_rust.Subscriber.Decoupler
use rx_rust.Subscriber.Decoupler.{Decoupler, decoupler_subscriber}
use rx_rust.Subscriber.StdoutSubscriber
use rx_rust.Subscriber.StdoutSubscriber.{StdoutSubscriber, stdout_subscriber}
use rx_rust.Pipeline.Mapped.{chain, tail_of, run-chain}
use rx_rust.Pipeline.Relay.{Channel, sender, relay}

-- What is printed stands behind what was printed before.
abbrev pub println : {V O : Type 0} → (O → V → V) → O → Action V (Unit {0})
println put x v = (done tt, put x v)

unfoldable pub gen :
    {C I A O Iter Q : Type 0}
    → Channel C O
    → (Iter → Option I × Iter)
    → (I → A)
    → (A → O)
    → Iter
    → Q
    → Action C (IterPublisher (Map C (Map C (Decoupler Q) A O) I A) Iter)
gen ch advance f g it dtx =
    chain (decoupler_subscriber (channel_sendable (sender ch))) advance f g it (Decoupler.new dtx)

unfoldable pub out :
    {C V O R : Type 0} → Channel C O → (O → V → V) → R → Action (C × V) (Coupler StdoutSubscriber R)
out ch put drx =
    Coupler.subscribe (lift (stdout_subscriber (println put))) (receiver ch.take ch.poll)
      (Coupler.new drx) StdoutSubscriber.new

session-StdoutSubscriber :
    {V O : Type 0} (put : O → V → V) (xs : List O) (s : StdoutSubscriber) (v : V)
    → session (stdout_subscriber (println put)) xs s v ≡ (done s, effects put xs v)
unfolding deliver stdout_subscriber StdoutSubscriber.on_next
session-StdoutSubscriber put [] s v = refl
session-StdoutSubscriber put (x ∷ xs) s v = session-StdoutSubscriber put xs s (put x v)

mapped-world : {W A B : Type 0} (h : A → B) (r : Outcome A × W) → (mapped h r).1 ≡ r.1
mapped-world h (done a, w) = refl
mapped-world h (panicked, w) = refl
mapped-world h (out_of_fuel, w) = refl

mapped-done :
    {W A B : Type 0} (h : A → B) (a : A) (r : Outcome A × W)
    → r.0 ≡ done a
    → (mapped h r).0 ≡ done (h a)
mapped-done h a (r, w) e = rw e refl

module _ {C V I A O Iter Q R : Type 0} (ch : Channel C O) (advance : Iter → Option I × Iter)
    (f : I → A) (g : A → O) (put : O → V → V) where
  -- Where both chains are run, `out` once `gen` is through and its sender is gone, and the iterator
  -- gives finitely many values, both runs end, within one round for each value and one more, and
  -- what is printed is what the channel held, followed by the images of the iterator's values under
  -- both functions, all of them and in their order.
  pub printed :
      (xs : List I) (it : Iter) (dtx : Q) (drx : R) (c : C) (v : V) (fuel : ℕ)
      → length xs < fuel
      → length (ch.waiting c ++ map g (map f xs)) < fuel
      → Yields advance xs it
      → let near =
          (gen ch advance f g it dtx
              >>= run
                  (iter_publisher
                    (map_subscriber
                      (map_subscriber (decoupler_subscriber (channel_sendable (sender ch)))))
                    advance)
                  fuel)
            c in
        ((mapped tail_of near).0 ≡ done (some (Decoupler.new dtx)))
        × (watched (
              mapped
                (λ p. p.subscriber)
                ((out ch put drx
                    >>= run
                        (coupler_publisher
                          (lift (stdout_subscriber (println put)))
                          (receiver ch.take ch.poll))
                        fuel)
                  (ch.drop_sender near.1, v)))
            ≡ (done (some StdoutSubscriber.new), effects put (ch.waiting c ++ map g (map f xs)) v))
  unfolding gen out
  printed xs it dtx drx c v fuel h h' y =
      let d = decoupler_subscriber (channel_sendable (sender ch {Q = Q})) in
      let ran = run-chain d advance f g xs fuel it (Decoupler.new dtx) c h y in
      let (sent, received) =
        relay ch (stdout_subscriber (println put)) dtx drx (map g (map f xs)) c StdoutSubscriber.new
          v fuel h' in
      let near =
        (gen ch advance f g it dtx
            >>= run (iter_publisher (map_subscriber (map_subscriber d)) advance) fuel)
          c in
      let far = session d (map g (map f xs)) (Decoupler.new dtx) c in
      let same : near.1 ≡ far.1 =
        sym (mapped-world tail_of near) ∙ ap (λ r. r.1) ran ∙ mapped-world some far in
      (
        ap (λ r. r.0) ran ∙ mapped-done some (Decoupler.new dtx) far sent,
        ap
              (λ (c' : C). watched (
                mapped (λ p. p.subscriber)
                  ((out ch put drx
                      >>= run
                          (coupler_publisher (lift (stdout_subscriber (println put)))
                            (receiver ch.take ch.poll))
                          fuel)
                    (ch.drop_sender c', v))))
              same
            ∙ received
            ∙ ap (mapped some) (
                session-StdoutSubscriber put (ch.waiting c ++ map g (map f xs)) StdoutSubscriber.new
                  v),
      )
