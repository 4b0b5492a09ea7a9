-- ===== src/Effect.antt =====
-- What a call of the program does: it acts on the world outside of the objects (the standard
-- output, queues, sockets), and it ends with a value, in a panic, or not at all within the fuel of
-- a loop.
use rx_rust.Base.{◌≡◌, refl, subst}

pub data Outcome (A : Type 0) : Type 0 where
  done : A → Outcome A
  panicked : Outcome A
  out_of_fuel : Outcome A

-- The world comes back after a panic too: what was written stays written.
abbrev pub Action : Type 0 → Type 0 → Type 0
Action W A = W → Outcome A × W

module _ {W A : Type 0} where
  abbrev pub pure : A → Action W A
  pure a w = (done a, w)

  abbrev pub panic : Action W A
  panic w = (panicked, w)

-- Rust's `Result`.
pub data Result (A E : Type 0) : Type 0 where
  ok : A → Result A E
  err : E → Result A E

-- How a call goes on from the result of an earlier one.
abbrev pub continue : {W A B : Type 0} → Outcome A × W → (A → Action W B) → Outcome B × W
continue (done a, w) f = f a w
continue (panicked, w) f = (panicked, w)
continue (out_of_fuel, w) f = (out_of_fuel, w)

infixl 5 ◌>>=◌ ◌>>◌
abbrev pub ◌>>=◌ : {W A B : Type 0} → Action W A → (A → Action W B) → Action W B
◌>>=◌ m f w = continue (m w) f

abbrev pub ◌>>◌ : {W B : Type 0} → Action W (Unit {0}) → Action W B → Action W B
m >> k = m >>= λ _. k

-- Two changes of a call's value are one.
pub continue-pure :
    {W A B C : Type 0} (f : A → B) (g : B → C) (r : Outcome A × W)
    → continue (continue r (λ a. pure (f a))) (λ b. pure (g b)) ≡ continue r (λ a. pure (g (f a)))
continue-pure f g (done a, w) = refl
continue-pure f g (panicked, w) = refl
continue-pure f g (out_of_fuel, w) = refl

-- Three calls in a row.
pub continue_assoc :
    {W A B C : Type 0} (r : Outcome A × W) (f : A → Action W B) (g : B → Action W C)
    → continue (continue r f) g ≡ continue r (λ a w. continue (f a w) g)
continue_assoc (done a, w) f g = refl
continue_assoc (panicked, w) f g = refl
continue_assoc (out_of_fuel, w) f g = refl

-- What holds of the value of a call that is done.
abbrev pub OnDone : {W A : Type 0} → (A → Type 0) → Outcome A × W → Type 0
OnDone P (done a, w) = P a
OnDone P (panicked, w) = Unit
OnDone P (out_of_fuel, w) = Unit

pub OnDone-continue :
    {W A B : Type 0} (P : B → Type 0) (r : Outcome A × W) (g : A → Action W B)
    → ((a : A) (w : W) → OnDone P (g a w))
    → OnDone P (continue r g)
OnDone-continue P (done a, w) g h = h a w
OnDone-continue P (panicked, w) g h = tt
OnDone-continue P (out_of_fuel, w) g h = tt

-- The same, where what is known of the first value helps.
pub OnDone-continue_from :
    {W A B : Type 0} (Q : A → Type 0) (P : B → Type 0) (r : Outcome A × W) (g : A → Action W B)
    → OnDone Q r
    → ((a : A) (w : W) → Q a → OnDone P (g a w))
    → OnDone P (continue r g)
OnDone-continue_from Q P (done a, w) g q h = h a w q
OnDone-continue_from Q P (panicked, w) g q h = tt
OnDone-continue_from Q P (out_of_fuel, w) g q h = tt

pub OnDone-done :
    {W A : Type 0} (P : A → Type 0) (r : Outcome A × W) (a : A) (w : W)
    → r ≡ (done a, w)
    → OnDone P r
    → P a
OnDone-done P r a w e h = subst (OnDone P) e h

pub OnDone-weaken :
    {W A : Type 0} (Q P : A → Type 0)
    → ((a : A) → Q a → P a)
    → (r : Outcome A × W) → OnDone Q r
    → OnDone P r
OnDone-weaken Q P f (done a, w) h = f a h
OnDone-weaken Q P f (panicked, w) h = tt
OnDone-weaken Q P f (out_of_fuel, w) h = tt
