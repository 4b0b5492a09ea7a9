-- ===== src/Processor/Do/Delivery.antt =====
-- A `Do` changes nothing for its subscriber.
use rx_rust.Base.{◌≡◌, refl, ◌∙◌, none, some, List}
use rx_rust.Effect.{◌>>=◌, continue-pure}
use rx_rust.Reactive.{Subscriber}
use rx_rust.Reactive.Feed.{session, mapped}
use rx_rust.Processor.Tap.{beside, effect, lift, effects, offered_from, started, beside-mapped}
use rx_rust.Processor.Do.{new, subscribe, on_next, do_subscriber}

module _ {L V S I : Type 0} (d : Subscriber V S I) where
  -- The function acts on every value that the subscriber was offered, in their order, and changes
  -- nothing for the subscriber.
  pub deliver-Do :
      (f : I → L → L) (xs : List I) (s : S) (l : L) (v : V)
      → (subscribe (lift d) (new (effect f)) s >>= session (do_subscriber (lift d)) xs) (l, v)
        ≡ beside (effects (f) (offered_from d xs (d.on_subscribe s 0 v)) l) (
            mapped
              (λ s'. record {
                fun = effect f;
                link = record { subscriber = some s'; index = some 0 };
              })
              (session d xs s v))
  unfolding new subscribe on_next do_subscriber lift
  deliver-Do f xs s l v =
      started d (do_subscriber (lift d))
        (λ s'. record { fun = effect f; link = record { subscriber = some s'; index = some 0 } })
        (f) (λ s' x l' v'. beside-mapped _ _ _)
        (λ s' l' v'. continue-pure _ _ _ ∙ beside-mapped _ _ _)
        (λ s'. record { fun = effect f; link = record { subscriber = some s'; index = none } })
        (λ s' l' v'. refl) xs l (d.on_subscribe s 0 v)
