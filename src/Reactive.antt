-- ===== src/Reactive.antt =====
-- src/reactive.rs: the traits `Subscriber` and `Publisher`. A trait is a record of the functions
-- that an implementation gives for a type of objects `S`; a `Box<Subscriber<Input=I>>` is an object
-- together with such a record. A call takes the object and returns it as the call leaves it.
use rx_rust.Base.{ℕ, zero, suc, String, Bool, true, false, List, [], ◌∷◌, if◌then◌else◌}
pub mod Feed
pub mod Stages
pub mod Endless
use rx_rust.Effect.{Outcome, done, out_of_fuel, Action, pure, panic, ◌>>=◌}

pub record Subscriber (W S I : Type 0) : Type 0 where
  pub on_next : S → I → Action W (S × Bool)
  pub on_subscribe : S → ℕ → Action W S
  pub on_error : S → String → Action W S
  pub on_complete : S → Bool → Action W S

-- The bodies that the trait gives: they only write to the log.
module _ {W S : Type 0} where
  abbrev pub default_on_subscribe : S → ℕ → Action W S
  default_on_subscribe s index = pure s

  abbrev pub default_on_error : S → String → Action W S
  default_on_error s err = pure s

  abbrev pub default_on_complete : S → Bool → Action W S
  default_on_complete s force = pure s

-- `subscribe` differs in the type of what it takes and stands beside each publisher.
pub record Publisher (W P : Type 0) : Type 0 where
  pub next : P → Action W (P × Bool)
  pub try_next : P → Action W (P × Bool)

module _ {W P : Type 0} where
  -- The trait's body of `try_next`.
  abbrev pub default_try_next : P → Action W (P × Bool)
  default_try_next p = panic

  -- The trait's body of `next`, which is whatever `try_next` the type has.
  abbrev pub default_next : (P → Action W (P × Bool)) → P → Action W (P × Bool)
  default_next try_next = try_next

  -- `Publisher::run`: call `next` until it answers false.
  unfoldable pub run : Publisher W P → ℕ → P → Action W P
  run pub_ zero p w = (out_of_fuel, w)
  run pub_ (suc fuel) p w =
      (do (p', more) ← pub_.next p; if more then run pub_ fuel p' else pure p') w
