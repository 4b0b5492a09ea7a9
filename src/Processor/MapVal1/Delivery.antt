-- ===== src/Processor/MapVal1/Delivery.antt =====
-- What the subscriber of a `MapVal1` gets.
use rx_rust.Base.{◌≡◌, refl, none, some, List, map}
use rx_rust.Effect.{pure, ◌>>=◌, continue-pure}
use rx_rust.Reactive.{Subscriber}
use rx_rust.Reactive.Feed.{session, mapped}
use rx_rust.Processor.Mealy.{outputs-map, started}
use rx_rust.Processor.MapVal1.{new, subscribe, on_next, map_val1_subscriber}

module _ {W S I V O : Type 0} (d : Subscriber W S O) where
  -- A subscriber of `MapVal1` gets the images of the values together with the fixed value.
  pub deliver-MapVal1 :
      (v : V) (f : I → V → O) (xs : List I) (s : S) (w : W)
      → mapped
          (λ m. m.subscriber)
          ((subscribe d (new v (λ x u. pure (f x u))) s >>= session (map_val1_subscriber d) xs) w)
        ≡ mapped some (session d (map (λ x. f x v) xs) s w)
  unfolding new subscribe on_next map_val1_subscriber
  deliver-MapVal1 v f xs s w = rw (← outputs-map (λ x. f x v) xs) (
      started d (map_val1_subscriber d)
        (λ t s'. record {
          fun = λ x u. pure (f x u);
          val = v;
          link = record { subscriber = some s'; index = some 0 };
        })
        (λ t x. f x v) (λ t x. t) (λ m. m.subscriber) (λ t s'. refl) (λ t s' x w'. refl)
        (λ t s' w'. continue-pure _ _ _)
        (λ s'. record {
          fun = λ x u. pure (f x u);
          val = v;
          link = record { subscriber = some s'; index = none };
        })
        (tt) (λ s' w'. refl) xs (d.on_subscribe s 0 w))
