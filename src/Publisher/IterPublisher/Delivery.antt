-- ===== src/Publisher/IterPublisher/Delivery.antt =====
-- What the subscriber of an `IterPublisher` gets, and that its loop ends.
use rx_rust.Base.{
  ℕ, zero, suc, ◌<◌, ◌≡◌, refl, Bool, true, false, Option, none, some, List, [], ◌∷◌, length, arith,
  if◌then◌else◌,
}
use rx_rust.Effect.{Outcome, done, panicked, out_of_fuel, Action, pure, continue, ◌>>=◌}
use rx_rust.Reactive.{Subscriber, run}
use rx_rust.Reactive.Feed.{deliver, session, mapped}
use rx_rust.Publisher.IterPublisher.{IterPublisher, new, subscribe, offer, next, iter_publisher}

-- The iterator gives these values, and then nothing.
abbrev pub Yields : {Iter O : Type 0} → (Iter → Option O × Iter) → List O → Iter → Type 0
Yields advance [] it = (advance it).0 ≡ none
Yields advance (x ∷ xs) it = ((advance it).0 ≡ some x) × Yields advance xs (advance it).1

module _ {W S Iter O : Type 0} (d : Subscriber W S O) (advance : Iter → Option O × Iter) where
  abbrev seen : IterPublisher S Iter → Option S
  seen p = p.subscriber

  abbrev loop : ℕ → IterPublisher S Iter → Action W (IterPublisher S Iter)
  loop = run (iter_publisher d advance)

  offered_last :
      (fuel : ℕ) (it : Iter) (r : Outcome S × W)
      → mapped seen (
          continue {A = IterPublisher S Iter × Bool}
            (continue r (λ s. pure (record { iter = it; subscriber = some s }, false)))
            (λ a. if a.1 then loop fuel a.0 else pure a.0))
        ≡ mapped some r
  offered_last fuel it (done s, w) = refl
  offered_last fuel it (panicked, w) = refl
  offered_last fuel it (out_of_fuel, w) = refl

  offered_next :
      (fuel : ℕ) (it : Iter) (xs : List O)
      → ((s : S) (w : W)
          → mapped seen (loop fuel (record { iter = it; subscriber = some s }) w)
            ≡ mapped some (deliver d xs s w))
      → (r : Outcome (S × Bool) × W)
      → mapped seen (
          continue {A = IterPublisher S Iter × Bool}
            (continue r (λ a. pure (record { iter = it; subscriber = some a.0 }, a.1)))
            (λ a. if a.1 then loop fuel a.0 else pure a.0))
        ≡ mapped some (continue r (λ a. if a.1 then deliver d xs a.0 else pure a.0))
  offered_next fuel it xs ih (done (s, true), w) = ih s w
  offered_next fuel it xs ih (done (s, false), w) = refl
  offered_next fuel it xs ih (panicked, w) = refl
  offered_next fuel it xs ih (out_of_fuel, w) = refl

  from :
      (xs : List O) (fuel : ℕ) (it : Iter) (s : S) (w : W)
      → length xs < fuel
      → Yields advance xs it
      → mapped seen (loop fuel (record { iter = it; subscriber = some s }) w)
        ≡ mapped some (deliver d xs s w)
  unfolding run deliver iter_publisher next offer
  from xs zero it s w h y = elim h [ ]
  from [] (suc fuel) it s w h y =
      rw (y, offer) (offered_last fuel (advance it).1 (d.on_complete s false w))
  from (x ∷ xs) (suc fuel) it s w h (y, ys) =
      rw (y, offer)
        (offered_next fuel (advance it).1 xs
          (λ s' w'. from xs fuel (advance it).1 s' w' (omega arith) ys) (d.on_next s x w))

  started :
      (xs : List O) (fuel : ℕ) (it : Iter)
      → length xs < fuel
      → Yields advance xs it
      → (r : Outcome S × W)
      → mapped seen (
          continue (continue r (λ s. pure (record { iter = it; subscriber = some s }))) (loop fuel))
        ≡ mapped some (continue r (deliver d xs))
  started xs fuel it h y (done s, w) = from xs fuel it s w h y
  started xs fuel it h y (panicked, w) = refl
  started xs fuel it h y (out_of_fuel, w) = refl

  -- Over an iterator that gives finitely many values, `run` ends within one round for each value
  -- and one more, and the subscriber gets the values up to the one that it refuses, and the end of
  -- the stream if it refuses none.
  pub run-IterPublisher :
      (xs : List O) (fuel : ℕ) (it : Iter) (s : S) (w : W)
      → length xs < fuel
      → Yields advance xs it
      → mapped
          (λ p. p.subscriber)
          ((subscribe d advance (new it) s >>= run (iter_publisher d advance) fuel) w)
        ≡ mapped some (session d xs s w)
  unfolding new subscribe
  run-IterPublisher xs fuel it s w h y = started xs fuel it h y (d.on_subscribe s 0 w)
