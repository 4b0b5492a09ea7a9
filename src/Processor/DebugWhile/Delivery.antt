-- ===== src/Processor/DebugWhile/Delivery.antt =====
-- A `DebugWhile` changes nothing for its subscriber.
use rx_rust.Base.{Bool-cases, inl, inr, ◌≡◌, refl, ◌∙◌, Bool, none, some, List, if◌then◌else◌}
use rx_rust.Effect.{pure, ◌>>=◌, continue-pure}
use rx_rust.Reactive.{Subscriber}
use rx_rust.Reactive.Feed.{session, mapped}
use rx_rust.Processor.Tap.{beside, effect, lift, effects, offered_from, started, beside-mapped}
use rx_rust.Processor.DebugWhile.{new, subscribe, on_next, debug_while_subscriber}

module _ {L V S I : Type 0} (d : Subscriber V S I) where
  -- The values that pass the test are printed, among those that the subscriber was offered; the
  -- subscriber gets them all.
  pub deliver-DebugWhile :
      (test : I → Bool) (f : I → L → L) (xs : List I) (s : S) (l : L) (v : V)
      → (subscribe (lift d) (effect f) (new (λ x. pure (test x))) s
            >>= session (debug_while_subscriber (lift d) (effect f)) xs)
          (l, v)
        ≡ beside
            (effects
              (λ x l. if test x then f x l else l)
              (offered_from d xs (d.on_subscribe s 0 v))
              l)
            (mapped
              (λ s'. record {
                fun = λ x. pure (test x);
                link = record { subscriber = some s'; index = some 0 };
              })
              (session d xs s v))
  unfolding new subscribe on_next debug_while_subscriber lift
  deliver-DebugWhile test f xs s l v =
      started d (debug_while_subscriber (lift d) (effect f))
        (λ s'. record {
          fun = λ x. pure (test x);
          link = record { subscriber = some s'; index = some 0 };
        })
        (λ x l. if test x then f x l else l)
        (λ s' x l' v'. elim (Bool-cases (test x)) [
          | inl e ↦ rw e (beside-mapped _ _ _)
          | inr e ↦ rw e (beside-mapped _ _ _)
        ])
        (λ s' l' v'. continue-pure _ _ _ ∙ beside-mapped _ _ _)
        (λ s'. record {
          fun = λ x. pure (test x);
          link = record { subscriber = some s'; index = none };
        })
        (λ s' l' v'. refl) xs l (d.on_subscribe s 0 v)
