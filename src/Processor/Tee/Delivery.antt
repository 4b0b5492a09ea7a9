-- ===== src/Processor/Tee/Delivery.antt =====
-- A `Tee` feeds its queue and changes nothing for its subscriber.
use rx_rust.Base.{◌≡◌, refl, ◌∙◌, none, some, List}
use rx_rust.Effect.{done, ◌>>=◌, continue-pure}
use rx_rust.Reactive.{Subscriber}
use rx_rust.Reactive.Feed.{session, mapped}
use rx_rust.Processor.Tap.{beside, lift, effects, offered_from, started, beside-mapped}
use rx_rust.Sendable.{Result, Sendable}
use rx_rust.Processor.Tee.{new, subscribe, on_next, tee_subscriber}

-- A queue in the first part of the world, with any answers.
abbrev pub queue :
    {L V Q I : Type 0} → (I → L → Result (Unit {0}) I) → (I → L → L) → Sendable (L × V) Q I
queue answer f = record { send = λ q x w. (done (answer x w.0), (f x w.0, w.1)) }

module _ {L V S I : Type 0} (d : Subscriber V S I) where
  -- Whatever the queue answers, the subscriber gets every value, and the queue is sent a copy of
  -- each value that the subscriber was offered, in their order.
  pub deliver-Tee :
      {Q : Type 0} (q : Q) (answer : I → L → Result (Unit {0}) I) (f : I → L → L) (xs : List I)
      (s : S) (l : L) (v : V)
      → (subscribe (lift d) (queue answer f) (new q) s
            >>= session (tee_subscriber (lift d) (queue answer f)) xs)
          (l, v)
        ≡ beside (effects (f) (offered_from d xs (d.on_subscribe s 0 v)) l) (
            mapped
              (λ s'. record { data_tx = q; link = record { subscriber = some s'; index = some 0 } })
              (session d xs s v))
  unfolding new subscribe on_next tee_subscriber lift
  deliver-Tee q answer f xs s l v =
      started d (tee_subscriber (lift d) (queue answer f))
        (λ s'. record { data_tx = q; link = record { subscriber = some s'; index = some 0 } }) (f)
        (λ s' x l' v'. beside-mapped _ _ _) (λ s' l' v'. continue-pure _ _ _ ∙ beside-mapped _ _ _)
        (λ s'. record { data_tx = q; link = record { subscriber = some s'; index = none } })
        (λ s' l' v'. refl) xs l (d.on_subscribe s 0 v)
