-- ===== src/Publisher/Repeat.antt =====
-- src/publisherimpl.rs, `Repeat`: one value, again and again.
pub mod Delivery
use rx_rust.Base.{Bool, false, Option, none, some}
use rx_rust.Effect.{Action, pure, ◌>>=◌}
use rx_rust.Reactive.{Subscriber, Publisher, default_try_next}
use rx_rust.DefaultMacros.{attach}

pub record Repeat (S O : Type 0) : Type 0 where
  pub val : O
  pub subscriber : Option S

module _ {S O : Type 0} where
  unfoldable pub new : O → Repeat S O
  new o = record { val = o; subscriber = none }

  module _ {W : Type 0} (d : Subscriber W S O) where
    unfoldable pub subscribe : Repeat S O → S → Action W (Repeat S O)
    subscribe p = attach d (λ r. record p { subscriber = r })

    unfoldable pub next : Repeat S O → Action W (Repeat S O × Bool)
    next p = elim p.subscriber [
      | some s ↦ do (s', more) ← d.on_next s p.val; pure (record p { subscriber = some s' }, more)
      | none ↦ pure (p, false)
    ]

    unfoldable pub repeat_publisher : Publisher W (Repeat S O)
    repeat_publisher = record { next = next; try_next = default_try_next }
