-- ===== src/DefaultMacros.antt =====
-- src/default_macros.rs: the bodies that the processors share, over the two fields that each of
-- them has, and the body of `subscribe`, which the processors and publishers repeat.
use rx_rust.Base.{ℕ, String, Bool, Option, none, some}
use rx_rust.Effect.{Action, pure, panic, ◌>>=◌}
use rx_rust.Reactive.{Subscriber}

pub record Link (S : Type 0) : Type 0 where
  pub subscriber : Option S
  pub index : Option ℕ

-- What every `new` puts in the two fields.
abbrev pub unlinked : {S : Type 0} → Link S
unlinked = record { subscriber = none; index = none }

module _ {W S O : Type 0} (d : Subscriber W S O) where
  -- `default_pass_error!`
  abbrev pub pass_error : Link S → String → Action W (Link S)
  pass_error l err = elim l.subscriber [
    | some s ↦ do s' ← d.on_error s err; pure (record l { subscriber = some s' })
    | none ↦ panic
  ]

  -- `default_pass_complete!`
  abbrev pub pass_complete : Link S → Bool → Action W (Link S)
  pass_complete l force = elim l.subscriber [
    | some s ↦ do s' ← d.on_complete s force; pure (record l { subscriber = some s' })
    | none ↦ panic
  ]

  -- `subscribe`: store the subscriber, and tell it that its index is 0.
  abbrev pub attach : {P : Type 0} → (Option S → P) → S → Action W P
  attach put s = do s' ← d.on_subscribe s 0; pure (put (some s'))

-- `default_pass_subscribe!`
abbrev pub pass_subscribe : {W S : Type 0} → Link S → ℕ → Action W (Link S)
pass_subscribe l index = pure (record l { index = some index })

-- The object with the fields as a call on them left them.
abbrev pub relink : {W S P : Type 0} → (Link S → P) → Action W (Link S) → Action W P
relink put m = do l ← m; pure (put l)
