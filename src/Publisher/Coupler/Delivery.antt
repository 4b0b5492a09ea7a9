-- ===== src/Publisher/Coupler/Delivery.antt =====
-- What the subscriber of a `Coupler` gets, and that its loop ends. The world is a pair: the
-- channel, and what the subscriber acts on.
use rx_rust.Base.{
  ℕ, zero, suc, ◌<◌, ◌≡◌, refl, Bool, true, false, Option, some, List, [], ◌∷◌, length, arith,
  if◌then◌else◌,
}
use rx_rust.Effect.{Outcome, done, panicked, out_of_fuel, Action, pure, continue, ◌>>=◌}
use rx_rust.Reactive.{Subscriber, run}
use rx_rust.Reactive.Feed.{deliver, session, mapped}
use rx_rust.Processor.Tap.{beside, lift}
use rx_rust.Publisher.IterPublisher.Delivery.{Yields}
use rx_rust.Publisher.Coupler.{
  TryRecv, Receiver, Coupler, new, subscribe, pass, hang_up, on_recv, next, coupler_publisher,
}

-- A receiver on the channel: `take` answers for `recv`, and `poll` for `try_recv`.
abbrev pub receiver :
    {C V R O : Type 0} → (C → Option O × C) → (C → TryRecv O × C) → Receiver (C × V) R O
receiver take poll = record {
  recv = λ rx w. (done (take w.0).0, ((take w.0).1, w.1));
  try_recv = λ rx w. (done (poll w.0).0, ((poll w.0).1, w.1));
}

-- A result without what it says of the channel.
abbrev pub watched : {C V A : Type 0} → Outcome A × (C × V) → Outcome A × V
watched (r, (c, v)) = (r, v)

pub watched-mapped :
    {C V A B : Type 0} (f : A → B) (r : Outcome A × (C × V))
    → watched (mapped f r) ≡ mapped f (watched r)
watched-mapped f (done a, (c, v)) = refl
watched-mapped f (panicked, (c, v)) = refl
watched-mapped f (out_of_fuel, (c, v)) = refl

module _ {C V R S O : Type 0} (d : Subscriber V S O) (take : C → Option O × C)
    (poll : C → TryRecv O × C) (rx : R) where
  abbrev seen : Coupler S R → Option S
  seen p = p.subscriber

  abbrev pub holding : S → Coupler S R
  holding s = record { data_rx = rx; subscriber = some s }

  abbrev loop : ℕ → Coupler S R → Action (C × V) (Coupler S R)
  loop = run (coupler_publisher (lift d) (receiver take poll))

  passed_last :
      (fuel : ℕ) (c : C) (r : Outcome S × V)
      → watched (
          mapped seen (
            continue {A = Coupler S R × Bool}
              (continue (beside c r) (λ s. pure (holding s, false)))
              (λ a. if a.1 then loop fuel a.0 else pure a.0)))
        ≡ mapped some r
  passed_last fuel c (done s, v) = refl
  passed_last fuel c (panicked, v) = refl
  passed_last fuel c (out_of_fuel, v) = refl

  passed_next :
      (fuel : ℕ) (c : C) (xs : List O)
      → ((s : S) (v : V)
          → watched (mapped seen (loop fuel (holding s) (c, v))) ≡ mapped some (deliver d xs s v))
      → (r : Outcome (S × Bool) × V)
      → watched (
          mapped seen (
            continue {A = Coupler S R × Bool}
              (continue (beside c r) (λ a. pure (holding a.0, a.1)))
              (λ a. if a.1 then loop fuel a.0 else pure a.0)))
        ≡ mapped some (continue r (λ a. if a.1 then deliver d xs a.0 else pure a.0))
  passed_next fuel c xs ih (done (s, true), v) = ih s v
  passed_next fuel c xs ih (done (s, false), v) = refl
  passed_next fuel c xs ih (panicked, v) = refl
  passed_next fuel c xs ih (out_of_fuel, v) = refl

  from :
      (xs : List O) (fuel : ℕ) (c : C) (s : S) (v : V)
      → length xs < fuel
      → Yields take xs c
      → watched (mapped seen (loop fuel (holding s) (c, v))) ≡ mapped some (deliver d xs s v)
  unfolding run deliver coupler_publisher next on_recv pass hang_up lift
  from xs zero c s v h y = elim h [ ]
  from [] (suc fuel) c s v h y =
      rw (y, on_recv) (passed_last fuel (take c).1 (d.on_complete s false v))
  from (x ∷ xs) (suc fuel) c s v h (y, ys) =
      rw (y, on_recv)
        (passed_next fuel (take c).1 xs (λ s' v'. from xs fuel (take c).1 s' v' (omega arith) ys)
          (d.on_next s x v))

  started :
      (xs : List O) (fuel : ℕ) (c : C)
      → length xs < fuel
      → Yields take xs c
      → (r : Outcome S × V)
      → watched (mapped seen (continue (continue (beside c r) (λ s. pure (holding s))) (loop fuel)))
        ≡ mapped some (continue r (deliver d xs))
  started xs fuel c h y (done s, v) = from xs fuel c s v h y
  started xs fuel c h y (panicked, v) = refl
  started xs fuel c h y (out_of_fuel, v) = refl

  -- Over a channel on which finitely many values arrive before its senders go away, `run` ends
  -- within one round for each value and one more, and the subscriber gets the values up to the one
  -- that it refuses, and the end of the stream if it refuses none.
  pub run-Coupler :
      (xs : List O) (fuel : ℕ) (c : C) (s : S) (v : V)
      → length xs < fuel
      → Yields take xs c
      → watched (
          mapped
            (λ p. p.subscriber)
            ((subscribe (lift d) (receiver take poll) (new rx) s
                >>= run (coupler_publisher (lift d) (receiver take poll)) fuel)
              (c, v)))
        ≡ mapped some (session d xs s v)
  unfolding new subscribe lift
  run-Coupler xs fuel c s v h y = started xs fuel c h y (d.on_subscribe s 0 v)
