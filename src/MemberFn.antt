-- ===== src/MemberFn.antt =====
-- src/memberfn.rs: a function that takes an object by reference, and the object. The function is a
-- closure that may act on the world.
use rx_rust.Base.{ℕ, ◌+◌, ◌%◌, ◌^◌}
use rx_rust.Effect.{Action, pure, ◌>>=◌}

pub record MemberFn0 (W T R : Type 0) : Type 0 where
  pub fun : T → Action W R
  pub obj : T

pub record MemberFn1 (W T R A0 : Type 0) : Type 0 where
  pub fun : T → A0 → Action W R
  pub obj : T

pub record MemberFn2 (W T R A0 A1 : Type 0) : Type 0 where
  pub fun : T → A0 → A1 → Action W R
  pub obj : T

module _ {W T R : Type 0} where
  unfoldable pub new0 : T → (T → Action W R) → MemberFn0 W T R
  new0 o f = record { fun = f; obj = o }

  unfoldable pub call0 : MemberFn0 W T R → Action W R
  call0 m = m.fun m.obj

module _ {W T R A0 : Type 0} where
  unfoldable pub new1 : T → (T → A0 → Action W R) → MemberFn1 W T R A0
  new1 o f = record { fun = f; obj = o }

  unfoldable pub call1 : MemberFn1 W T R A0 → A0 → Action W R
  call1 m arg = m.fun m.obj arg

module _ {W T R A0 A1 : Type 0} where
  unfoldable pub new2 : T → (T → A0 → A1 → Action W R) → MemberFn2 W T R A0 A1
  new2 o f = record { fun = f; obj = o }

  unfoldable pub call2 : MemberFn2 W T R A0 A1 → A0 → A1 → Action W R
  call2 m arg0 arg1 = m.fun m.obj arg0 arg1

-- The object of the file's test; a `usize` is 64 bits wide and wraps.
pub record Foo : Type 0 where
  pub x : ℕ

unfoldable pub winning : Foo → ℕ → ℕ
winning f a = (a + f.x) % 2 ^ 64

-- The binding of the test: `winning` and a `Foo`.
unfoldable pub bound : {W : Type 0} → Foo → MemberFn1 W Foo ℕ ℕ
bound bar = new1 bar (λ f a. pure (winning f a))

-- The call of the test, whose result is printed.
unfoldable pub print_call : {W : Type 0} → (ℕ → Action W (Unit {0})) → Foo → ℕ → Action W (Unit {0})
print_call println bar arg = do r ← call1 (bound bar) arg; println r
