-- ===== src/Processor/Reduce/Delivery.antt =====
-- What the subscriber of a `Reduce` gets.
use rx_rust.Base.{◌≡◌, refl, none, some, List}
use rx_rust.Effect.{pure, ◌>>=◌, continue-pure}
use rx_rust.Reactive.{Subscriber}
use rx_rust.Reactive.Feed.{session, mapped}
use rx_rust.Processor.Mealy.{outputs, started}
use rx_rust.Processor.Reduce.{new, subscribe, on_next, passed, reduce_subscriber}

module _ {W S I V O : Type 0} (d : Subscriber W S O) where
  -- A subscriber of `Reduce` gets the outputs of the machine that the function describes.
  pub deliver-Reduce :
      (f : V → I → V × O) (v : V) (xs : List I) (s : S) (w : W)
      → mapped
          (λ m. m.subscriber)
          ((subscribe d (new v (λ u x. pure (f u x))) s >>= session (reduce_subscriber d) xs) w)
        ≡ mapped some (session d (outputs (λ u x. (f u x).1) (λ u x. (f u x).0) v xs) s w)
  unfolding new subscribe on_next reduce_subscriber passed
  deliver-Reduce f v xs s w =
      started d (reduce_subscriber d)
        (λ u s'. record {
          fun = λ u' x. pure (f u' x);
          state = u;
          link = record { subscriber = some s'; index = some 0 };
        })
        (λ u x. (f u x).1) (λ u x. (f u x).0) (λ m. m.subscriber) (λ t s'. refl) (λ t s' x w'. refl)
        (λ t s' w'. continue-pure _ _ _)
        (λ s'. record {
          fun = λ u' x. pure (f u' x);
          state = v;
          link = record { subscriber = some s'; index = none };
        })
        (v) (λ s' w'. refl) xs (d.on_subscribe s 0 w)
