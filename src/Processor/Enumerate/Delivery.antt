-- ===== src/Processor/Enumerate/Delivery.antt =====
-- What the subscriber of an `Enumerate` gets.
use rx_rust.Base.{ℕ, ◌+◌, ◌%◌, ◌^◌, ◌≡◌, refl, none, some, List, [], ◌∷◌}
use rx_rust.Effect.{◌>>=◌, continue-pure}
use rx_rust.Reactive.{Subscriber}
use rx_rust.Reactive.Feed.{session, mapped}
use rx_rust.Processor.Mealy.{outputs, started}
use rx_rust.Processor.Enumerate.{new, subscribe, on_next, enumerate_subscriber}

-- The values with their numbers, modulo 2 ^ 64.
abbrev pub numbered : {I : Type 0} → ℕ → List I → List (I × ℕ)
numbered n [] = []
numbered n (x ∷ xs) = (x, n) ∷ numbered ((n + 1) % 2 ^ 64) xs

outputs-numbered :
    {I : Type 0} (n : ℕ) (xs : List I)
    → outputs (λ n x. (x, n)) (λ n x. (n + 1) % 2 ^ 64) n xs ≡ numbered n xs
unfolding outputs
outputs-numbered n [] = refl
outputs-numbered n (x ∷ xs) = rw (outputs-numbered ((n + 1) % 2 ^ 64) xs)

module _ {W S I : Type 0} (d : Subscriber W S (I × ℕ)) where
  -- A subscriber of `Enumerate` gets the values with their numbers from 0 on, modulo 2 ^ 64.
  pub deliver-Enumerate :
      (xs : List I) (s : S) (w : W)
      → mapped (λ m. m.subscriber) ((subscribe d (new) s >>= session (enumerate_subscriber d) xs) w)
        ≡ mapped some (session d (numbered 0 xs) s w)
  unfolding new subscribe on_next enumerate_subscriber
  deliver-Enumerate xs s w = rw (← outputs-numbered 0 xs) (
      started d (enumerate_subscriber d)
        (λ n s'. record { count = n; link = record { subscriber = some s'; index = some 0 } })
        (λ n x. (x, n)) (λ n x. (n + 1) % 2 ^ 64) (λ m. m.subscriber) (λ t s'. refl)
        (λ t s' x w'. refl) (λ t s' w'. continue-pure _ _ _)
        (λ s'. record { count = 0; link = record { subscriber = some s'; index = none } }) (0)
        (λ s' w'. refl) xs (d.on_subscribe s 0 w))
