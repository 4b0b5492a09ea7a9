-- ===== src/Reactive/Endless.antt =====
-- Publishers whose values never end, over a subscriber that refuses one of them.
use rx_rust.Base.{
  ℕ, zero, suc, ◌≤◌, ◌≡◌, refl, Bool, true, false, Option, some, List, [], ◌∷◌, arith,
  if◌then◌else◌,
}
use rx_rust.Effect.{Outcome, done, panicked, out_of_fuel, pure, continue}
use rx_rust.Reactive.{Subscriber, Publisher, run}
use rx_rust.Reactive.Feed.{deliver, mapped}

-- What a call leaves, if it goes on.
abbrev pub Onward : {W S : Type 0} → (S → W → Type 0) → Outcome (S × Bool) × W → Type 0
Onward P (done (s, true), w) = P s w
Onward P (done (s, false), w) = Unit
Onward P (panicked, w) = Unit
Onward P (out_of_fuel, w) = Unit

-- The subscriber does not take all of the values in a row.
unfoldable pub Refuses : {W S O : Type 0} → Subscriber W S O → List O → S → W → Type 0
Refuses d [] s w = ⊥
Refuses d (x ∷ xs) s w = Onward (Refuses d xs) (d.on_next s x w)

-- The first values of a generator.
abbrev pub first_of : {G O : Type 0} → (G → O × G) → ℕ → G → List O
first_of value zero g = []
first_of value (suc n) g = (value g).0 ∷ first_of value n (value g).1

module _ {W S P O G : Type 0} (d : Subscriber W S O) (p : Publisher W P) (value : G → O × G)
    (over : G → S → P) (seen : P → Option S) (shows : (g : G) (s : S) → seen (over g s) ≡ some s)
    (step : (g : G) (s : S) (w : W)
      → p.next (over g s) w
        ≡ mapped (λ (a : S × Bool). (over (value g).1 a.0, a.1)) (d.on_next s (value g).0 w)) where
  answered :
      (fuel n : ℕ) (g : G)
      → ((s : S) (w : W)
          → Refuses d (first_of value n g) s w
          → mapped seen (run p fuel (over g s) w)
            ≡ mapped some (deliver d (first_of value n g) s w))
      → (r : Outcome (S × Bool) × W) → Onward (Refuses d (first_of value n g)) r
      → mapped seen (
          continue {A = P × Bool}
            (mapped (λ (a : S × Bool). (over g a.0, a.1)) r)
            (λ a. if a.1 then run p fuel a.0 else pure a.0))
        ≡ mapped some
            (continue r (λ a. if a.1 then deliver d (first_of value n g) a.0 else pure a.0))
  answered fuel n g ih (done (s, true), w) h = ih s w h
  answered fuel n g ih (done (s, false), w) h = rw (shows g s) refl
  answered fuel n g ih (panicked, w) h = refl
  answered fuel n g ih (out_of_fuel, w) h = refl

  pub run-first_of :
      (n fuel : ℕ) (g : G) (s : S) (w : W)
      → n ≤ fuel
      → Refuses d (first_of value n g) s w
      → mapped seen (run p fuel (over g s) w) ≡ mapped some (deliver d (first_of value n g) s w)
  unfolding run deliver Refuses
  run-first_of zero fuel g s w h stops = absurd stops
  run-first_of (suc n) zero g s w h stops = absurd (omega arith)
  run-first_of (suc n) (suc fuel) g s w h stops = rw (step g s w) (
      answered fuel n (value g).1 (λ s' w'. run-first_of n fuel (value g).1 s' w' (omega arith))
        (d.on_next s (value g).0 w) stops)
