-- ===== src/Processor/Tap.antt =====
-- The processors that pass every value on and only do something beside. The world is a pair: `L` is
-- what the processor acts on, `V` what its subscriber acts on.
use rx_rust.Base.{◌≡◌, refl, Bool, true, false, List, [], ◌∷◌, if◌then◌else◌}
use rx_rust.Effect.{Outcome, done, panicked, out_of_fuel, Action, continue, pure}
use rx_rust.Reactive.{Subscriber}
use rx_rust.Reactive.Feed.{deliver, session, mapped}

-- A call that acts on the second part of the world alone.
abbrev pub beside : {L V A : Type 0} → L → Outcome A × V → Outcome A × (L × V)
beside l (r, v) = (r, (l, v))

-- An effect on the first part alone.
abbrev pub effect : {L V I : Type 0} → (I → L → L) → I → Action (L × V) (Unit {0})
effect f x (l, v) = (done tt, (f x l, v))

unfoldable pub lift : {L V S I : Type 0} → Subscriber V S I → Subscriber (L × V) S I
lift d = record {
  on_next = λ s x w. beside w.0 (d.on_next s x w.1);
  on_subscribe = λ s index w. beside w.0 (d.on_subscribe s index w.1);
  on_error = λ s e w. beside w.0 (d.on_error s e w.1);
  on_complete = λ s force w. beside w.0 (d.on_complete s force w.1);
}

-- The values that a subscriber is offered: all of them up to the one that it refuses.
abbrev pub onward : {V S I : Type 0} → Outcome (S × Bool) × V → (S → V → List I) → List I
onward (done (s, true), v) rest = rest s v
onward (done (s, false), v) rest = []
onward (panicked, v) rest = []
onward (out_of_fuel, v) rest = []

unfoldable pub offered : {V S I : Type 0} → Subscriber V S I → List I → S → V → List I
offered d [] s v = []
offered d (x ∷ xs) s v = x ∷ onward (d.on_next s x v) (offered d xs)

-- The same from the answer to the subscription on.
abbrev pub offered_from : {V S I : Type 0} → Subscriber V S I → List I → Outcome S × V → List I
offered_from d xs (done s, v) = offered d xs s v
offered_from d xs (panicked, v) = []
offered_from d xs (out_of_fuel, v) = []

abbrev pub effects : {L I : Type 0} → (I → L → L) → List I → L → L
effects f [] l = l
effects f (x ∷ xs) l = effects f xs (f x l)

module _ {L V S P I : Type 0} (d : Subscriber V S I) (p : Subscriber (L × V) P I) (over : S → P)
    (f : I → L → L)
    (step : (s : S) (x : I) (l : L) (v : V)
      → p.on_next (over s) x (l, v)
        ≡ beside (f x l) (mapped (λ (a : S × Bool). (over a.0, a.1)) (d.on_next s x v)))
    (last : (s : S) (l : L) (v : V)
      → p.on_complete (over s) false (l, v)
        ≡ beside l (mapped over (d.on_complete s false v))) where
  answered :
      (xs : List I) (l : L)
      → ((s : S) (v : V)
          → deliver p xs (over s) (l, v)
            ≡ beside (effects f (offered d xs s v) l) (mapped over (deliver d xs s v)))
      → (r : Outcome (S × Bool) × V)
      → continue {A = P × Bool}
          (beside l (mapped (λ (a : S × Bool). (over a.0, a.1)) r))
          (λ a. if a.1 then deliver p xs a.0 else pure a.0)
        ≡ beside
            (effects f (onward r (offered d xs)) l)
            (mapped over (continue r (λ a. if a.1 then deliver d xs a.0 else pure a.0)))
  answered xs l ih (done (s, true), v) = ih s v
  answered xs l ih (done (s, false), v) = refl
  answered xs l ih (panicked, v) = refl
  answered xs l ih (out_of_fuel, v) = refl

  pub deliver-effects :
      (xs : List I) (s : S) (l : L) (v : V)
      → deliver p xs (over s) (l, v)
        ≡ beside (effects f (offered d xs s v) l) (mapped over (deliver d xs s v))
  unfolding deliver offered
  deliver-effects [] s l v = last s l v
  deliver-effects (x ∷ xs) s l v =
      rw (step s x l v)
        (answered xs (f x l) (λ s' v'. deliver-effects xs s' (f x l) v') (d.on_next s x v))

  pub started :
      (fresh : S → P)
      → ((s : S) (l : L) (v : V) → p.on_subscribe (fresh s) 0 (l, v) ≡ (done (over s), (l, v)))
      → (xs : List I) (l : L) (r : Outcome S × V)
      → continue {A = P} (continue (beside l r) (λ s. pure (fresh s))) (session p xs)
        ≡ beside (effects f (offered_from d xs r) l) (mapped over (continue r (deliver d xs)))
  started fresh h xs l (done s, v) = rw (h s l v) (deliver-effects xs s l v)
  started fresh h xs l (panicked, v) = refl
  started fresh h xs l (out_of_fuel, v) = refl

-- A call of the subscriber, seen from the pair of worlds.
pub beside-mapped :
    {L V A B : Type 0} (g : A → B) (l : L) (r : Outcome A × V)
    → continue (beside l r) (λ a. pure (g a)) ≡ beside l (mapped g r)
beside-mapped g l (done a, v) = refl
beside-mapped g l (panicked, v) = refl
beside-mapped g l (out_of_fuel, v) = refl
