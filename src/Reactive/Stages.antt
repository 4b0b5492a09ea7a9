-- ===== src/Reactive/Stages.antt =====
-- Chains of stages, each of which holds the next one: what is known of the stages carries over to
-- the chain.
use rx_rust.Base.{◌≡◌, refl, ap, sym, ◌∙◌, Option, none, some}
use rx_rust.Effect.{Outcome, done, panicked, out_of_fuel, Action, continue}
use rx_rust.Reactive.Feed.{mapped}

-- The stage after the next one.
abbrev pub after : {M S : Type 0} → (M → Option S) → Option M → Option S
after g none = none
after g (some m) = g m

abbrev pub through : {P M S : Type 0} → (P → Option M) → (M → Option S) → P → Option S
through f g p = after g (f p)

pub mapped-mapped :
    {W A B C : Type 0} (f : A → B) (g : B → C) (r : Outcome A × W)
    → mapped g (mapped f r) ≡ mapped (λ a. g (f a)) r
mapped-mapped f g (done a, w) = refl
mapped-mapped f g (panicked, w) = refl
mapped-mapped f g (out_of_fuel, w) = refl

module _ {W P M S : Type 0} (f : P → Option M) (g : M → Option S) where
  pub mapped-through :
      (p : Outcome P × W) (m : Outcome M × W)
      → mapped f p ≡ mapped some m
      → mapped (through f g) p ≡ mapped g m
  mapped-through p m e =
      sym (mapped-mapped f (after g) p) ∙ ap (mapped (after g)) e ∙ mapped-mapped some (after g) m

  pub stage :
      {A : Type 0} (k : A → Action W P) (h : A → Action W M)
      → ((a : A) (w : W) → mapped f (k a w) ≡ mapped some (h a w))
      → (r : Outcome A × W) → mapped (through f g) (continue r k) ≡ mapped g (continue r h)
  stage k h e (done a, w) = mapped-through (k a w) (h a w) (e a w)
  stage k h e (panicked, w) = refl
  stage k h e (out_of_fuel, w) = refl
