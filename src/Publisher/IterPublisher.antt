-- ===== src/Publisher/IterPublisher.antt =====
-- src/publisherimpl.rs, `IterPublisher`: the values of an iterator. The iterator is a parameter.
pub mod Delivery
use rx_rust.Base.{Bool, false, Option, none, some}
use rx_rust.Effect.{Action, pure, ◌>>=◌}
use rx_rust.Reactive.{Subscriber, Publisher, default_try_next}
use rx_rust.DefaultMacros.{attach}

pub record IterPublisher (S Iter : Type 0) : Type 0 where
  pub iter : Iter
  pub subscriber : Option S

module _ {S Iter : Type 0} where
  unfoldable pub new : Iter → IterPublisher S Iter
  new it = record { iter = it; subscriber = none }

  module _ {W O : Type 0} (d : Subscriber W S O) (advance : Iter → Option O × Iter) where
    unfoldable pub subscribe : IterPublisher S Iter → S → Action W (IterPublisher S Iter)
    subscribe p = attach d (λ r. record p { subscriber = r })

    -- The two arms of the match on what the iterator gives.
    offer : Iter → S → Option O → Action W (IterPublisher S Iter × Bool)
    offer it s (some x) = do
      (s', more) ← d.on_next s x
      pure (record { iter = it; subscriber = some s' }, more)
    offer it s none = do
      s' ← d.on_complete s false
      pure (record { iter = it; subscriber = some s' }, false)

    unfoldable pub next : IterPublisher S Iter → Action W (IterPublisher S Iter × Bool)
    unfolding offer
    next p = elim p.subscriber [
      | some s ↦ let (x, it) = advance p.iter in offer it s x
      | none ↦ pure (p, false)
    ]

    unfoldable pub iter_publisher : Publisher W (IterPublisher S Iter)
    iter_publisher = record { next = next; try_next = default_try_next }
