-- ===== src/Pipeline/Mapped.antt =====
-- The chain of the test in src/lib.rs, `main`: an iterator, two `Map`s, and a subscriber.
use rx_rust.Base.{ℕ, ◌<◌, ◌≡◌, ap, ◌∙◌, Option, some, List, map, length}
use rx_rust.Effect.{Action, pure, ◌>>=◌, continue_assoc}
use rx_rust.Reactive.{Subscriber, run}
use rx_rust.Reactive.Feed.{session, mapped}
use rx_rust.Reactive.Stages.{through, stage}
use rx_rust.Processor.Map
use rx_rust.Processor.Map.{Map, map_subscriber}
use rx_rust.Processor.Map.Delivery.{deliver-Map}
use rx_rust.Publisher.IterPublisher
use rx_rust.Publisher.IterPublisher.{iter_publisher}
use rx_rust.Publisher.IterPublisher.Delivery.{Yields, run-IterPublisher}

-- The chain, linked.
unfoldable pub chain :
    {W S I A B Iter : Type 0}
    → Subscriber W S B
    → (Iter → Option I × Iter)
    → (I → A)
    → (A → B)
    → Iter
    → S
    → Action W (IterPublisher.IterPublisher (Map W (Map W S A B) I A) Iter)
chain {W} {S} {I} {A} {B} d advance f g it s = do
  map2 ← Map.subscribe d (Map.new (λ a. pure (g a))) s
  map1 ← Map.subscribe (map_subscriber d) (Map.new (λ i. pure (f i))) map2
  IterPublisher.subscribe (map_subscriber (map_subscriber d)) advance (IterPublisher.new it) map1

-- The subscriber at the end of the chain.
abbrev pub tail_of :
    {W S I A B Iter : Type 0}
    → IterPublisher.IterPublisher (Map W (Map W S A B) I A) Iter
    → Option S
tail_of = through (through (λ p. p.subscriber) (λ m. m.subscriber)) (λ n. n.subscriber)

module _ {W S I A B Iter : Type 0} (d : Subscriber W S B) (advance : Iter → Option I × Iter)
    (f : I → A) (g : A → B) where
  -- Where the iterator gives finitely many values, a run of the chain ends, and its subscriber gets
  -- the images of the values under both functions, up to the one that it refuses, and the end of
  -- the stream if it refuses none.
  pub run-chain :
      (xs : List I) (fuel : ℕ) (it : Iter) (s : S) (w : W)
      → length xs < fuel
      → Yields advance xs it
      → mapped tail_of (
          (chain d advance f g it s
              >>= run (iter_publisher (map_subscriber (map_subscriber d)) advance) fuel)
            w)
        ≡ mapped some (session d (map g (map f xs)) s w)
  unfolding chain
  run-chain xs fuel it s w h y =
      let linked = Map.subscribe d (Map.new (λ a. pure (g a))) s w in
      let last = run (iter_publisher (map_subscriber (map_subscriber d)) advance) fuel in
      ap (mapped tail_of) (continue_assoc linked _ last)
      ∙ stage (through (λ p. p.subscriber) (λ m. m.subscriber)) (λ n. n.subscriber) _ _
          (λ map2 w'.
            ap (mapped (through (λ p. p.subscriber) (λ m. m.subscriber))) (
              continue_assoc (Map.subscribe (map_subscriber d) (Map.new (λ i. pure (f i))) map2 w')
                _ last)
            ∙ stage (λ p. p.subscriber) (λ m. m.subscriber) _ _
                (λ map1 w''.
                  run-IterPublisher (map_subscriber (map_subscriber d)) advance xs fuel it map1 w''
                    h y)
                (Map.subscribe (map_subscriber d) (Map.new (λ i. pure (f i))) map2 w')
            ∙ deliver-Map (map_subscriber d) f xs map2 w')
          linked
      ∙ deliver-Map d g (map f xs) s w
