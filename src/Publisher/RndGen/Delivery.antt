-- ===== src/Publisher/RndGen/Delivery.antt =====
-- What the subscriber of an `RndGen` gets.
use rx_rust.Base.{ℕ, ◌≤◌, ◌≡◌, refl, some}
use rx_rust.Effect.{Outcome, done, panicked, out_of_fuel, continue, pure, ◌>>=◌}
use rx_rust.Reactive.{Subscriber, run}
use rx_rust.Reactive.Feed.{deliver, session, mapped, mapped-continue}
use rx_rust.Reactive.Endless.{Refuses, first_of, run-first_of}
use rx_rust.Publisher.RndGen.{StdGen, RndGen, new, subscribe, try_next, rnd_gen_publisher}

-- The generator that `new` makes.
abbrev pub first_gen : StdGen
first_gen = record { rng = record { current = 0 }; size = 1_000_000 }

module _ {W S O : Type 0} (d : Subscriber W S O) (arbitrary : StdGen → O × StdGen) where
  linked :
      (n fuel : ℕ) (r : Outcome S × W)
      → n ≤ fuel
      → ((s : S) (w : W) → r ≡ (done s, w) → Refuses d (first_of arbitrary n first_gen) s w)
      → mapped
          (λ p. p.subscriber)
          (continue {A = RndGen W S O}
            (continue r (λ s. pure (record { subscriber = some s; gen = first_gen })))
            (run (rnd_gen_publisher d arbitrary) fuel))
        ≡ mapped some (continue r (deliver d (first_of arbitrary n first_gen)))
  unfolding rnd_gen_publisher try_next
  linked n fuel (done s, w) h stops =
      run-first_of d (rnd_gen_publisher d arbitrary) arbitrary
        (λ g s. record { subscriber = some s; gen = g }) (λ p. p.subscriber) (λ g s. refl)
        (λ g s w. mapped-continue _ (d.on_next s (arbitrary g).0 w)) n fuel first_gen s w h
        (stops s w refl)
  linked n fuel (panicked, w) h stops = refl
  linked n fuel (out_of_fuel, w) h stops = refl

  -- Where a subscriber, as it is after its `on_subscribe`, refuses one of the first `n` values that
  -- the generator makes, `run` ends within `n` rounds, and the subscriber gets those values up to
  -- the one that it refuses.
  pub run-RndGen :
      (n fuel : ℕ) (s : S) (w : W)
      → n ≤ fuel
      → ((s' : S) (w' : W)
          → d.on_subscribe s 0 w ≡ (done s', w')
          → Refuses d (first_of arbitrary n first_gen) s' w')
      → mapped
          (λ p. p.subscriber)
          ((subscribe d arbitrary new s >>= run (rnd_gen_publisher d arbitrary) fuel) w)
        ≡ mapped some (session d (first_of arbitrary n first_gen) s w)
  unfolding new subscribe
  run-RndGen n fuel s w h stops = linked n fuel (d.on_subscribe s 0 w) h stops
