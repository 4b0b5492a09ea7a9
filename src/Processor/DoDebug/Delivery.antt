-- ===== src/Processor/DoDebug/Delivery.antt =====
-- A `DoDebug` changes nothing for its subscriber.
use rx_rust.Base.{◌≡◌, refl, ◌∙◌, none, some, List}
use rx_rust.Effect.{◌>>=◌, continue-pure}
use rx_rust.Reactive.{Subscriber}
use rx_rust.Reactive.Feed.{session, mapped}
use rx_rust.Processor.Tap.{beside, effect, lift, effects, offered_from, started, beside-mapped}
use rx_rust.Processor.DoDebug.{new, subscribe, on_next, do_debug_subscriber}

module _ {L V S I : Type 0} (d : Subscriber V S I) where
  -- Printing changes nothing for the subscriber, and what is printed are the values that the
  -- subscriber was offered, in their order.
  pub deliver-DoDebug :
      (f : I → L → L) (xs : List I) (s : S) (l : L) (v : V)
      → (subscribe (lift d) (effect f) (new) s
            >>= session (do_debug_subscriber (lift d) (effect f)) xs)
          (l, v)
        ≡ beside (effects (f) (offered_from d xs (d.on_subscribe s 0 v)) l) (
            mapped
              (λ s'. record { link = record { subscriber = some s'; index = some 0 } })
              (session d xs s v))
  unfolding new subscribe on_next do_debug_subscriber lift
  deliver-DoDebug f xs s l v =
      started d (do_debug_subscriber (lift d) (effect f))
        (λ s'. record { link = record { subscriber = some s'; index = some 0 } }) (f)
        (λ s' x l' v'. beside-mapped _ _ _) (λ s' l' v'. continue-pure _ _ _ ∙ beside-mapped _ _ _)
        (λ s'. record { link = record { subscriber = some s'; index = none } }) (λ s' l' v'. refl)
        xs l (d.on_subscribe s 0 v)
