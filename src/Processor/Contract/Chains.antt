-- ===== src/Processor/Contract/Chains.antt =====
-- Chains of processors, of any length.
use rx_rust.Base.{ℕ, String, ◌≡◌, refl, ◌∙◌, Bool, Option, none, some, Option-cases, inl, inr}
use rx_rust.Effect.{Outcome, done, panicked, out_of_fuel, Action}
use rx_rust.Reactive.{Subscriber}
use rx_rust.Reactive.Feed.{mapped}
use rx_rust.Reactive.Stages.{through, mapped-through}
use rx_rust.Sendable.{Sendable}
use rx_rust.DefaultMacros.{Link}
use rx_rust.Processor.Contract.{PassesOn}
use rx_rust.Processor.Contract.Stages.{
  do_debug-PassesOn, debug_while-PassesOn, do-PassesOn, map-PassesOn, map_val1-PassesOn,
  reduce-PassesOn, enumerate-PassesOn, tee-PassesOn, unzip-PassesOn, take-PassesOn,
}
use rx_rust.Processor.DoDebug.{DoDebug, do_debug_subscriber}
use rx_rust.Processor.DebugWhile.{DebugWhile, debug_while_subscriber}
use rx_rust.Processor.Do.{Do, do_subscriber}
use rx_rust.Processor.Map.{Map, map_subscriber}
use rx_rust.Processor.MapVal1.{MapVal1, map_val1_subscriber}
use rx_rust.Processor.Reduce.{Reduce, reduce_subscriber}
use rx_rust.Processor.Enumerate.{Enumerate, enumerate_subscriber}
use rx_rust.Processor.Tee.{Tee, tee_subscriber}
use rx_rust.Processor.Unzip.{Unzip, unzip_subscriber}
use rx_rust.Processor.Take.{Take, take_subscriber}

-- A chain of processors that ends in `d`, each made for the one behind it: the types of its head and
-- of what that takes, what the head does, and the subscriber at the end, if no processor of the chain
-- lacks the one behind it.
pub data Chain {W S O : Type 0} (d : Subscriber W S O)
    : (P I : Type 0) → Subscriber W P I → (P → Option S) → Type 1 where
  end_ : Chain d S O d some
  do_debug :
      {S₁ I : Type 0} {m : Subscriber W S₁ I} {seen : S₁ → Option S}
      → (println : I → Action W (Unit {0})) → Chain d S₁ I m seen
      → Chain d
          (DoDebug W S₁ I)
          I
          (do_debug_subscriber m println)
          (through (λ (x : DoDebug W S₁ I). x.link.subscriber) seen)
  debug_while :
      {S₁ I : Type 0} {m : Subscriber W S₁ I} {seen : S₁ → Option S}
      → (println : I → Action W (Unit {0})) → Chain d S₁ I m seen
      → Chain d
          (DebugWhile W S₁ I)
          I
          (debug_while_subscriber m println)
          (through (λ (x : DebugWhile W S₁ I). x.link.subscriber) seen)
  do_each :
      {S₁ I : Type 0} {m : Subscriber W S₁ I} {seen : S₁ → Option S}
      → Chain d S₁ I m seen
      → Chain d
          (Do W S₁ I)
          I
          (do_subscriber m)
          (through (λ (x : Do W S₁ I). x.link.subscriber) seen)
  map :
      {S₁ I O₁ : Type 0} {m : Subscriber W S₁ O₁} {seen : S₁ → Option S}
      → Chain d S₁ O₁ m seen
      → Chain d
          (Map W S₁ I O₁)
          I
          (map_subscriber m)
          (through (λ (x : Map W S₁ I O₁). x.link.subscriber) seen)
  map_val1 :
      {S₁ I V O₁ : Type 0} {m : Subscriber W S₁ O₁} {seen : S₁ → Option S}
      → Chain d S₁ O₁ m seen
      → Chain d
          (MapVal1 W S₁ I V O₁)
          I
          (map_val1_subscriber m)
          (through (λ (x : MapVal1 W S₁ I V O₁). x.link.subscriber) seen)
  reduce :
      {S₁ I V O₁ : Type 0} {m : Subscriber W S₁ O₁} {seen : S₁ → Option S}
      → Chain d S₁ O₁ m seen
      → Chain d
          (Reduce W S₁ I V O₁)
          I
          (reduce_subscriber m)
          (through (λ (x : Reduce W S₁ I V O₁). x.link.subscriber) seen)
  enumerate :
      {S₁ I : Type 0} {m : Subscriber W S₁ (I × ℕ)} {seen : S₁ → Option S}
      → Chain d S₁ (I × ℕ) m seen
      → Chain d
          (Enumerate W S₁ I)
          I
          (enumerate_subscriber m)
          (through (λ (x : Enumerate W S₁ I). x.link.subscriber) seen)
  tee :
      {S₁ Q I : Type 0} {m : Subscriber W S₁ I} {seen : S₁ → Option S}
      → (q : Sendable W Q I) → Chain d S₁ I m seen
      → Chain d
          (Tee W S₁ Q I)
          I
          (tee_subscriber m q)
          (through (λ (x : Tee W S₁ Q I). x.link.subscriber) seen)
  unzip :
      {S₁ I : Type 0} {m : Subscriber W S₁ I} {seen : S₁ → Option S}
      → Chain d S₁ I m seen
      → Chain d
          (Unzip W S₁ I)
          (I × I)
          (unzip_subscriber m)
          (through (λ (x : Unzip W S₁ I). x.link.subscriber) seen)
  take :
      {S₁ O₁ : Type 0} {m : Subscriber W S₁ O₁} {seen : S₁ → Option S}
      → Chain d S₁ O₁ m seen
      → Chain d
          (Take W S₁ O₁)
          O₁
          (take_subscriber m)
          (through (λ (x : Take W S₁ O₁). x.link.subscriber) seen)

-- What a call of the head comes to, where it comes to a call of the subscriber at the end, or there
-- is none.
abbrev pub Reaches :
    {W S P : Type 0} → (P → Option S) → (S → Outcome S × W) → W → Option S → Outcome P × W → Type 0
Reaches seen call w none r = r ≡ (panicked, w)
Reaches seen call w (some s) r = mapped seen r ≡ mapped some (call s)

panicked_from :
    {W A B : Type 0} (f : A → B) (w : W) (r : Outcome A × W)
    → mapped f r ≡ (panicked, w)
    → r ≡ (panicked, w)
panicked_from f w (done a, w') e = absurd (cc)
panicked_from f w (panicked, w') e = cc
panicked_from f w (out_of_fuel, w') e = absurd (cc)

-- One processor more in front.
Reaches-through :
    {W S P M : Type 0} (inner : P → Option M) (seen : M → Option S) (call : S → Outcome S × W)
    (w : W)
    → (o : Option S) (r : Outcome P × W) (r' : Outcome M × W) → mapped inner r ≡ mapped some r'
    → Reaches seen call w o r'
    → Reaches (through inner seen) call w o r
Reaches-through inner seen call w none r r' e h = panicked_from inner w r (rw (e, h) refl)
Reaches-through inner seen call w (some s) r r' e h = mapped-through inner seen r r' e ∙ h

module _ {W S O : Type 0} (d : Subscriber W S O) where
  -- What holds of a head.
  abbrev Passed :
      {P I : Type 0} → Subscriber W P I → (P → Option S) → P → String → Bool → W → Type 0
  Passed p seen m e force w =
      Reaches seen (λ s. d.on_error s e w) w (seen m) (p.on_error m e w)
      × Reaches seen (λ s. d.on_complete s force w) w (seen m) (p.on_complete m force w)

  -- One processor in front of a chain.
  onto :
      {P I M A : Type 0} (p : Subscriber W P I) (next : Subscriber W M A) (seen : M → Option S)
      (link : P → Link M) (put : P → Link M → P)
      → PassesOn next p link put
      → (e : String) (force : Bool) (w : W) → ((x : M) → Passed next seen x e force w)
      → (m : P) → Passed p (through (λ m. (link m).subscriber) seen) m e force w
  onto {P} {M = M} p next seen link put h e force w rest m =
      let inner : P → Option M = λ m. (link m).subscriber in
      elim (Option-cases (inner m)) [
        | inl lacks ↦ rw lacks (h.errors_alone m e w lacks, h.completes_alone m force w lacks)
        | inr (x, holds) ↦
            let (errors, completes) = rest x in
            rw holds (
              Reaches-through inner seen (λ s. d.on_error s e w) w (seen x) (p.on_error m e w)
                  (next.on_error x e w) (h.errors m x e w holds) errors,
              Reaches-through inner seen (λ s. d.on_complete s force w) w (seen x)
                  (p.on_complete m force w) (next.on_complete x force w)
                  (h.completes m x force w holds) completes,
            )
      ]

  -- Through a chain of any of the ten processors, in any order and number, an error and the end of
  -- the stream go to the subscriber at its end: once, with the same message and the same flag, and
  -- to nothing else; the chain is left with that subscriber as the call left it. Where a processor
  -- of the chain was given no subscriber, both calls panic, and nothing has been done.
  pub Chain-Reaches :
      {P I : Type 0} {p : Subscriber W P I} {seen : P → Option S}
      → Chain d P I p seen
      → (m : P) (e : String) (force : Bool) (w : W)
      → Reaches seen (λ s. d.on_error s e w) w (seen m) (p.on_error m e w)
        × Reaches seen (λ s. d.on_complete s force w) w (seen m) (p.on_complete m force w)
  Chain-Reaches end_ m e force w = (refl, refl)
  Chain-Reaches (do_debug {m = next} {seen} println c) m e force w =
      onto (do_debug_subscriber next println) next seen (λ x. x.link) (λ x l. record x { link = l })
        (do_debug-PassesOn next println) e force w (λ x. Chain-Reaches c x e force w) m
  Chain-Reaches (debug_while {m = next} {seen} println c) m e force w =
      onto (debug_while_subscriber next println) next seen (λ x. x.link)
        (λ x l. record x { link = l }) (debug_while-PassesOn next println) e force w
        (λ x. Chain-Reaches c x e force w) m
  Chain-Reaches (do_each {m = next} {seen} c) m e force w =
      onto (do_subscriber next) next seen (λ x. x.link) (λ x l. record x { link = l })
        (do-PassesOn next) e force w (λ x. Chain-Reaches c x e force w) m
  Chain-Reaches (map {m = next} {seen} c) m e force w =
      onto (map_subscriber next) next seen (λ x. x.link) (λ x l. record x { link = l })
        (map-PassesOn next) e force w (λ x. Chain-Reaches c x e force w) m
  Chain-Reaches (map_val1 {m = next} {seen} c) m e force w =
      onto (map_val1_subscriber next) next seen (λ x. x.link) (λ x l. record x { link = l })
        (map_val1-PassesOn next) e force w (λ x. Chain-Reaches c x e force w) m
  Chain-Reaches (reduce {m = next} {seen} c) m e force w =
      onto (reduce_subscriber next) next seen (λ x. x.link) (λ x l. record x { link = l })
        (reduce-PassesOn next) e force w (λ x. Chain-Reaches c x e force w) m
  Chain-Reaches (enumerate {m = next} {seen} c) m e force w =
      onto (enumerate_subscriber next) next seen (λ x. x.link) (λ x l. record x { link = l })
        (enumerate-PassesOn next) e force w (λ x. Chain-Reaches c x e force w) m
  Chain-Reaches (tee {m = next} {seen} q c) m e force w =
      onto (tee_subscriber next q) next seen (λ x. x.link) (λ x l. record x { link = l })
        (tee-PassesOn next q) e force w (λ x. Chain-Reaches c x e force w) m
  Chain-Reaches (unzip {m = next} {seen} c) m e force w =
      onto (unzip_subscriber next) next seen (λ x. x.link) (λ x l. record x { link = l })
        (unzip-PassesOn next) e force w (λ x. Chain-Reaches c x e force w) m
  Chain-Reaches (take {m = next} {seen} c) m e force w =
      onto (take_subscriber next) next seen (λ x. x.link) (λ x l. record x { link = l })
        (take-PassesOn next) e force w (λ x. Chain-Reaches c x e force w) m
