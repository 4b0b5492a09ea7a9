-- ===== src/Publisher/Repeat/Delivery.antt =====
-- The loop of a `Repeat` ends if its subscriber refuses.
use rx_rust.Base.{ℕ, zero, suc, ◌≤◌, ◌≡◌, refl, ap, some, ◌∷◌, replicate, subst}
use rx_rust.Reactive.{Subscriber, run}
use rx_rust.Reactive.Feed.{deliver, mapped, mapped-continue}
use rx_rust.Reactive.Endless.{Refuses, first_of, run-first_of}
use rx_rust.Publisher.Repeat.{next, repeat_publisher}

first_of-replicate : {O : Type 0} (n : ℕ) (x : O) → first_of (λ x. (x, x)) n x ≡ replicate n x
first_of-replicate zero x = refl
first_of-replicate (suc n) x = ap (◌∷◌ x) (first_of-replicate n x)

module _ {W S O : Type 0} (d : Subscriber W S O) (x : O) where
  pub loop-deliver :
      (n fuel : ℕ) (s : S) (w : W)
      → n ≤ fuel
      → Refuses d (replicate n x) s w
      → mapped
          (λ p. p.subscriber)
          (run (repeat_publisher d) fuel (record { val = x; subscriber = some s }) w)
        ≡ mapped some (deliver d (replicate n x) s w)
  unfolding repeat_publisher next
  loop-deliver n fuel s w h =
      subst
        (λ xs.
          Refuses d xs s w
          → mapped (λ p. p.subscriber)
              (run (repeat_publisher d) fuel (record { val = x; subscriber = some s }) w)
            ≡ mapped some (deliver d xs s w))
        (first_of-replicate n x)
        (run-first_of d (repeat_publisher d) (λ x. (x, x))
          (λ x s. record { val = x; subscriber = some s }) (λ p. p.subscriber) (λ x s. refl)
          (λ x s w. mapped-continue _ (d.on_next s x w)) n fuel x s w h)
