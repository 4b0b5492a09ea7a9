-- ===== src/Processor/Map/Delivery.antt =====
-- What the subscriber of a `Map` gets.
use rx_rust.Base.{◌≡◌, refl, none, some, List, map}
use rx_rust.Effect.{pure, ◌>>=◌, continue-pure}
use rx_rust.Reactive.{Subscriber}
use rx_rust.Reactive.Feed.{session, mapped}
use rx_rust.Processor.Mealy.{outputs-map, started}
use rx_rust.Processor.Map.{new, subscribe, on_next, map_subscriber}

module _ {W S I O : Type 0} (d : Subscriber W S O) where
  -- A subscriber of `Map` gets the images of the values that `Map` is given.
  pub deliver-Map :
      (f : I → O) (xs : List I) (s : S) (w : W)
      → mapped
          (λ m. m.subscriber)
          ((subscribe d (new (λ x. pure (f x))) s >>= session (map_subscriber d) xs) w)
        ≡ mapped some (session d (map f xs) s w)
  unfolding new subscribe on_next map_subscriber
  deliver-Map f xs s w = rw (← outputs-map f xs) (
      started d (map_subscriber d)
        (λ t s'. record {
          fun = λ x. pure (f x);
          link = record { subscriber = some s'; index = some 0 };
        })
        (λ t. f) (λ t x. t) (λ m. m.subscriber) (λ t s'. refl) (λ t s' x w'. refl)
        (λ t s' w'. continue-pure _ _ _)
        (λ s'. record {
          fun = λ x. pure (f x);
          link = record { subscriber = some s'; index = none };
        })
        (tt) (λ s' w'. refl) xs (d.on_subscribe s 0 w))
