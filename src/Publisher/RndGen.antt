-- ===== src/Publisher/RndGen.antt =====
-- src/publisherimpl.rs, `TestIncGen` and `RndGen`: values made from a counter. `Arbitrary` and
-- `StdGen` are quickcheck's: how a value is made from the generator is a parameter.
pub mod Delivery
use rx_rust.Base.{ℕ, ◌+◌, ◌%◌, ◌^◌, Bool, false, Option, none, some}
use rx_rust.Effect.{Action, pure, ◌>>=◌}
use rx_rust.Reactive.{Subscriber, Publisher, default_next}
use rx_rust.DefaultMacros.{attach}

-- `current` is a `u64`, which wraps.
pub record TestIncGen : Type 0 where
  pub current : ℕ

unfoldable pub next_u32 : TestIncGen → ℕ × TestIncGen
next_u32 g = (g.current % 2 ^ 32, record g { current = (g.current + 1) % 2 ^ 64 })

unfoldable pub next_u64 : TestIncGen → ℕ × TestIncGen
next_u64 g = (g.current, record g { current = (g.current + 1) % 2 ^ 64 })

-- `StdGen::new(rng, size)`: the generator and the bound that quickcheck takes with it.
pub record StdGen : Type 0 where
  pub rng : TestIncGen
  pub size : ℕ

pub record RndGen (W S O : Type 0) : Type 0 where
  pub subscriber : Option S
  pub gen : StdGen

module _ {W S O : Type 0} where
  unfoldable pub new : RndGen W S O
  new = record {
    subscriber = none;
    gen = record { rng = record { current = 0 }; size = 1_000_000 };
  }

  module _ (d : Subscriber W S O) (arbitrary : StdGen → O × StdGen) where
    unfoldable pub subscribe : RndGen W S O → S → Action W (RndGen W S O)
    subscribe p = attach d (λ r. record p { subscriber = r })

    unfoldable pub try_next : RndGen W S O → Action W (RndGen W S O × Bool)
    try_next p = elim p.subscriber [
      | some s ↦
          let (x, gen') = arbitrary p.gen in
          do (s', more) ← d.on_next s x; pure (record { subscriber = some s'; gen = gen' }, more)
      | none ↦ pure (p, false)
    ]

    unfoldable pub rnd_gen_publisher : Publisher W (RndGen W S O)
    rnd_gen_publisher = record { next = default_next try_next; try_next = try_next }
