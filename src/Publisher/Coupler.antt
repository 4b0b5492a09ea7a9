-- ===== src/Publisher/Coupler.antt =====
-- src/publisherimpl.rs, `Coupler`: the values that arrive on a channel. The receiver is the
-- standard library's: a parameter, which says what a call of `recv` and of `try_recv` answers.
pub mod Delivery
use rx_rust.Base.{Bool, true, false, Option, none, some}
use rx_rust.Effect.{Action, pure, ◌>>=◌}
use rx_rust.Reactive.{Subscriber, Publisher}
use rx_rust.DefaultMacros.{attach}

-- What `try_recv` answers; `recv` answers `none` for an error, which it has of one kind only.
pub data TryRecv (O : Type 0) : Type 0 where
  received : O → TryRecv O
  empty : TryRecv O
  disconnected : TryRecv O

pub record Receiver (W R O : Type 0) : Type 0 where
  pub recv : R → Action W (Option O)
  pub try_recv : R → Action W (TryRecv O)

pub record Coupler (S R : Type 0) : Type 0 where
  pub data_rx : R
  pub subscriber : Option S

module _ {S R : Type 0} where
  unfoldable pub new : R → Coupler S R
  new rx = record { data_rx = rx; subscriber = none }

  module _ {W O : Type 0} (d : Subscriber W S O) (c : Receiver W R O) where
    unfoldable pub subscribe : Coupler S R → S → Action W (Coupler S R)
    subscribe p = attach d (λ r. record p { subscriber = r })

    -- The arms of the two matches.
    unfoldable pub pass : Coupler S R → S → O → Action W (Coupler S R × Bool)
    pass p s x = do (s', more) ← d.on_next s x; pure (record p { subscriber = some s' }, more)

    unfoldable pub hang_up : Coupler S R → S → Action W (Coupler S R × Bool)
    hang_up p s = do s' ← d.on_complete s false; pure (record p { subscriber = some s' }, false)

    unfoldable pub on_recv : Coupler S R → S → Option O → Action W (Coupler S R × Bool)
    unfolding pass hang_up
    on_recv p s (some x) = pass p s x
    on_recv p s none = hang_up p s

    on_try_recv : Coupler S R → S → TryRecv O → Action W (Coupler S R × Bool)
    unfolding pass hang_up
    on_try_recv p s (received x) = pass p s x
    on_try_recv p s empty = pure (p, true)
    on_try_recv p s disconnected = hang_up p s

    unfoldable pub next : Coupler S R → Action W (Coupler S R × Bool)
    unfolding on_recv
    next p = elim p.subscriber [
      | some s ↦ do r ← c.recv p.data_rx; on_recv p s r
      | none ↦ pure (p, false)
    ]

    unfoldable pub try_next : Coupler S R → Action W (Coupler S R × Bool)
    unfolding on_try_recv
    try_next p = elim p.subscriber [
      | some s ↦ do r ← c.try_recv p.data_rx; on_try_recv p s r
      | none ↦ pure (p, false)
    ]

    unfoldable pub coupler_publisher : Publisher W (Coupler S R)
    coupler_publisher = record { next = next; try_next = try_next }
