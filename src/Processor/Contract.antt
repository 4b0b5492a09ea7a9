-- ===== src/Processor/Contract.antt =====
-- src/processorimpl.rs and src/default_macros.rs: what all processors have in common, whatever they
-- do with the values: how the other signals go through them.
pub mod Stages
pub mod Chains
use rx_rust.Base.{
  ℕ, String, ◌≡◌, refl, ap, ◌∙◌, sym, Bool, true, Option, none, some, Option-cases, inl, inr,
}
use rx_rust.Effect.{Outcome, done, panicked, out_of_fuel, Action, continue, OnDone}
use rx_rust.Reactive.{Subscriber}
use rx_rust.Reactive.Feed.{mapped}
use rx_rust.DefaultMacros.{Link, pass_error, pass_complete, pass_subscribe, relink}

-- `p` is a processor in front of `d`, `link` gives its two fields for the subscriber that it holds
-- and its index, and `put` replaces them. An error and the end of the stream reach that subscriber,
-- and leave it as the call did; where there is none, the call panics, but a value is dropped and the
-- answer is true. A new index is stored, and is all that changes.
pub record PassesOn {W S P I O : Type 0} (d : Subscriber W S O) (p : Subscriber W P I)
    (link : P → Link S) (put : P → Link S → P) : Type 0 where
  pub errors :
      (m : P) (s : S) (e : String) (w : W)
      → (link m).subscriber ≡ some s
      → mapped (λ m. (link m).subscriber) (p.on_error m e w) ≡ mapped some (d.on_error s e w)
  pub completes :
      (m : P) (s : S) (force : Bool) (w : W)
      → (link m).subscriber ≡ some s
      → mapped (λ m. (link m).subscriber) (p.on_complete m force w)
        ≡ mapped some (d.on_complete s force w)
  pub errors_alone :
      (m : P) (e : String) (w : W) → (link m).subscriber ≡ none → p.on_error m e w ≡ (panicked, w)
  pub completes_alone :
      (m : P) (force : Bool) (w : W)
      → (link m).subscriber ≡ none
      → p.on_complete m force w ≡ (panicked, w)
  pub indexes :
      (m : P) (index : ℕ) (w : W)
      → p.on_subscribe m index w ≡ (done (put m (record (link m) { index = some index })), w)
  pub drops :
      (m : P) (x : I) (w : W)
      → (link m).subscriber ≡ none
      → OnDone (λ (r : P × Bool). (r.1 ≡ true) × ((link r.0).subscriber ≡ none)) (p.on_next m x w)

module _ {W S P I O : Type 0} (d : Subscriber W S O) (p : Subscriber W P I) (link : P → Link S)
    (put : P → Link S → P) (put_lem : (m : P) (l : Link S) → link (put m l) ≡ l) where
  relinked :
      (m : P) (l : Link S) (r : Outcome S × W)
      → mapped
          (λ (m : P). (link m).subscriber)
          (continue {A = Link S} {B = P}
            (continue r (λ s. λ w. (done (record l { subscriber = some s }), w)))
            (λ l w. (done (put m l), w)))
        ≡ mapped some r
  relinked m l (done s, w) = rw (put_lem m (record l { subscriber = some s })) refl
  relinked m l (panicked, w) = refl
  relinked m l (out_of_fuel, w) = refl

  -- The bodies of the macros do so.
  pub macros-PassesOn :
      ((m : P) (e : String) → p.on_error m e ≡ relink (put m) (pass_error d (link m) e))
      → ((m : P) (force : Bool)
          → p.on_complete m force ≡ relink (put m) (pass_complete d (link m) force))
      → ((m : P) (index : ℕ)
          → p.on_subscribe m index ≡ relink (put m) (pass_subscribe (link m) index))
      → ((m : P) (x : I) (w : W)
          → (link m).subscriber ≡ none
          → OnDone
              (λ (r : P × Bool). (r.1 ≡ true) × ((link r.0).subscriber ≡ none))
              (p.on_next m x w))
      → PassesOn d p link put
  macros-PassesOn on_error on_complete on_subscribe drops = record {
    errors = λ m s e w h. rw (on_error m e, h) (relinked m (link m) (d.on_error s e w));
    completes = λ m s force w h.
        rw (on_complete m force, h) (relinked m (link m) (d.on_complete s force w));
    errors_alone = λ m e w h. rw (on_error m e, h) refl;
    completes_alone = λ m force w h. rw (on_complete m force, h) refl;
    indexes = λ m index w. rw (on_subscribe m index) refl;
    drops = drops;
  }
