-- ===== src/Processor/Mealy.antt =====
-- The processors that answer each value with one value: machines that step from state to state. A
-- processor of this kind is transparent to its publisher and its subscriber: to deliver values to
-- it is to deliver the machine's outputs to its subscriber.
use rx_rust.Base.{
  ◌≡◌, refl, Bool, true, false, Option, some, List, [], ◌∷◌, map, arith, if◌then◌else◌,
}
use rx_rust.Effect.{Outcome, done, panicked, out_of_fuel, continue, pure, ◌>>=◌}
use rx_rust.Reactive.{Subscriber}
use rx_rust.Reactive.Feed.{deliver, session, mapped}

-- The outputs for a list of inputs.
unfoldable pub outputs : {T I O : Type 0} → (T → I → O) → (T → I → T) → T → List I → List O
outputs out next t [] = []
outputs out next t (x ∷ xs) = out t x ∷ outputs out next (next t x) xs

pub outputs-map :
    {I O : Type 0} (f : I → O) (xs : List I)
    → outputs (λ (t : Unit {0}). f) (λ t x. t) tt xs ≡ map f xs
unfolding outputs
outputs-map f [] = refl
outputs-map f (x ∷ xs) = rw (outputs-map f xs)

module _ {W S P I O T : Type 0} (d : Subscriber W S O) (p : Subscriber W P I) (over : T → S → P)
    (out : T → I → O) (next : T → I → T) (seen : P → Option S)
    (seen-over : (t : T) (s : S) → seen (over t s) ≡ some s)
    (step : (t : T) (s : S) (x : I) (w : W)
      → p.on_next (over t s) x w
        ≡ (d.on_next s (out t x) >>= λ r. pure (over (next t x) r.0, r.1)) w)
    (last : (t : T) (s : S) (w : W)
      → p.on_complete (over t s) false w
        ≡ (d.on_complete s false >>= λ s'. pure (over t s')) w) where
  -- One value, from the subscriber's answer on.
  answered :
      (t : T) (xs : List I) (ys : List O)
      → ((s : S) (w : W) → mapped seen (deliver p xs (over t s) w) ≡ mapped some (deliver d ys s w))
      → (r : Outcome (S × Bool) × W)
      → mapped seen (
          continue {A = P × Bool}
            (continue r (λ a. pure (over t a.0, a.1)))
            (λ a. if a.1 then deliver p xs a.0 else pure a.0))
        ≡ mapped some (continue r (λ a. if a.1 then deliver d ys a.0 else pure a.0))
  answered t xs ys ih (done (s, true), w) = ih s w
  answered t xs ys ih (done (s, false), w) = rw (seen-over t s)
  answered t xs ys ih (panicked, w) = refl
  answered t xs ys ih (out_of_fuel, w) = refl

  pub deliver-outputs :
      (xs : List I) (t : T) (s : S) (w : W)
      → mapped seen (deliver p xs (over t s) w)
        ≡ mapped some (deliver d (outputs out next t xs) s w)
  unfolding deliver outputs
  deliver-outputs [] t s w = grind (arith, last t s w, seen-over)
  deliver-outputs (x ∷ xs) t s w = rw (step t s x w) (
      answered (next t x) xs (outputs out next (next t x) xs) (deliver-outputs xs (next t x))
        (d.on_next s (out t x) w))

  -- From the subscription on.
  pub started :
      (fresh : S → P) (t : T)
      → ((s : S) (w : W) → p.on_subscribe (fresh s) 0 w ≡ (done (over t s), w))
      → (xs : List I) (r : Outcome S × W)
      → mapped seen (continue (continue r (λ s. pure (fresh s))) (session p xs))
        ≡ mapped some (continue r (deliver d (outputs out next t xs)))
  started fresh t h xs (done s, w) = rw (h s w) (deliver-outputs xs t s w)
  started fresh t h xs (panicked, w) = refl
  started fresh t h xs (out_of_fuel, w) = refl
