-- ===== src/Pipeline/Oneway/Receiving.antt =====
-- What the receiver's chain collects.
use rx_rust.Base.{
  ℕ, suc, ◌+◌, ◌^◌, ◌<◌, ◌≡◌, refl, sym, ap, ◌∙◌, Option, some, List, [], ◌∷◌, ◌++◌, map, length,
}
use rx_rust.Base
use rx_rust.Effect.{Outcome, done, panicked, out_of_fuel, continue, pure, ◌>>=◌, continue_assoc}
use rx_rust.Reactive.{run}
use rx_rust.Reactive.Feed.{session, mapped}
use rx_rust.Reactive.Stages.{through, mapped-through, stage}
use rx_rust.Processor.Map
use rx_rust.Processor.Map.{map_subscriber}
use rx_rust.Processor.Map.Delivery.{deliver-Map}
use rx_rust.Processor.Take.Delivery.{deliver-Take}
use rx_rust.Processor.Tap.{beside, lift}
use rx_rust.Publisher.IterPublisher.Delivery.{Yields}
use rx_rust.Publisher.Coupler
use rx_rust.Publisher.Coupler.{Coupler, TryRecv, coupler_publisher}
use rx_rust.Publisher.Coupler.Delivery.{receiver, watched, watched-mapped, run-Coupler}
use rx_rust.Subscriber.Collect
use rx_rust.Subscriber.Collect.{Collect, collect_subscriber}
use rx_rust.Subscriber.Collect.Delivery.{session-Collect}
use rx_rust.Reactor.Connection.{ProtoMsg}
use rx_rust.Pipeline.Oneway.{Taker, map3, taker, link_taker, receive, collected_by}

module _ {C V R : Type 0} (take : C → Option (ProtoMsg ℕ) × C) (poll : C → TryRecv (ProtoMsg ℕ) × C)
    (rx : R) where
  -- The chain behind the `Coupler`.
  abbrev behind : Taker V → Option (Collect ℕ)
  behind = through (λ t. t.subscriber) (λ m. m.subscriber)

  -- The `Coupler` runs once the chain behind it is linked.
  run-linked :
      (msgs : List (ProtoMsg ℕ)) (fuel : ℕ) (c : C) (r : Outcome (Taker V) × V)
      → length msgs < fuel
      → Yields take msgs c
      → watched (
          mapped collected_by (
            continue (beside c r) (λ t.
              Coupler.subscribe (lift taker) (receiver take poll) (Coupler.new rx) t
              >>= run (coupler_publisher (lift taker) (receiver take poll)) fuel)))
        ≡ mapped behind (continue r (session taker msgs))
  run-linked msgs fuel c (done t, v) h y =
      let p =
        (Coupler.subscribe (lift taker) (receiver take poll) (Coupler.new rx) t
            >>= run (coupler_publisher (lift taker) (receiver take poll)) fuel)
          (c, v) in
      watched-mapped collected_by p
      ∙ mapped-through (λ p. p.subscriber) behind (watched p) (session taker msgs t v)
          (sym (watched-mapped (λ p. p.subscriber) p)
            ∙ run-Coupler taker take poll rx msgs fuel c t v h y)
  run-linked msgs fuel c (panicked, v) h y = refl
  run-linked msgs fuel c (out_of_fuel, v) h y = refl

  collected :
      (limit : ℕ) (msgs : List (ProtoMsg ℕ)) (ys : List ℕ) (v : V)
      → suc limit < 2 ^ 64
      → mapped behind ((link_taker limit (Collect.new ys) >>= session taker msgs) v)
        ≡ (done (some (Collect.new (ys ++ map (λ m. m.msg) (Base.take limit msgs)))), v)
  unfolding link_taker
  collected limit msgs ys v fits =
      let link = Map.subscribe collect_subscriber (Map.new (λ m. pure m.msg)) (Collect.new ys) v in
      ap (mapped behind) (continue_assoc link _ (session taker msgs))
      ∙ stage (λ t. t.subscriber) (λ m. m.subscriber) _ _
          (λ m w. deliver-Take map3 limit fits msgs m w) link
      ∙ deliver-Map collect_subscriber (λ m. m.msg) (Base.take limit msgs) (Collect.new ys) v
      ∙ ap (mapped some) (session-Collect (map (λ m. m.msg) (Base.take limit msgs)) ys v)

  -- Over a channel on which some messages arrive before its sender is gone, the receiver's chain
  -- ends, and the vector holds what it held, and then the first values, as many as the limit says.
  pub receive-Collect :
      (limit fuel : ℕ) (msgs : List (ProtoMsg ℕ)) (c : C) (ys : List ℕ) (v : V)
      → suc limit < 2 ^ 64
      → length msgs < fuel
      → Yields take msgs c
      → watched (mapped collected_by (receive take poll rx limit fuel (Collect.new ys) (c, v)))
        ≡ (done (some (Collect.new (ys ++ map (λ m. m.msg) (Base.take limit msgs)))), v)
  unfolding receive
  receive-Collect limit fuel msgs c ys v fits h y =
      run-linked msgs fuel c (link_taker limit (Collect.new ys) v) h y
      ∙ collected limit msgs ys v fits
