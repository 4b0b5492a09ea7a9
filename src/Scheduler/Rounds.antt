-- ===== src/Scheduler/Rounds.antt =====
-- How many rounds a `fixed_loop` makes, and how long it sleeps.
use mathlib.Core.List.{append-nil, append_assoc}
use rx_rust.Base.{
  ℕ, zero, suc, ◌+◌, ◌-◌, ◌*◌, ◌/◌, ◌^◌, ◌≤◌, ◌<◌, ◌≡◌, refl, ◌∙◌, Bool, true, false, some, List,
  [], ◌∷◌, ◌++◌, arith, ltb,
}
use rx_rust.Base.Int.{ℤ, pos, ◌-ℤ◌}
use rx_rust.Effect.{done, panicked, ok, Action, pure}
use rx_rust.Scheduler.{Clock, loop_time, span, checked_sub, second, rounds, fixed_loop}

-- On readings that do not go back and that are below 2 ^ 63, nothing wraps and nothing overflows.
checked_sub-span :
    (time start end_ : ℕ)
    → time ≤ second
    → start ≤ end_
    → end_ < 2 ^ 63
    → checked_sub (pos time) (span start end_) ≡ some (pos time -ℤ pos (end_ - start))
unfolding checked_sub span
checked_sub-span time start end_ h k fits = ground arith

loop_time_lem :
    {W : Type 0} (rate : ℕ) (w : W)
    → 0 < rate
    → rate < 2 ^ 63
    → loop_time rate w ≡ (done (pos (second / rate)), w)
unfolding loop_time
loop_time_lem zero w low high = absurd (omega arith)
loop_time_lem (suc r) w low high =
    let small : ltb (suc r) (2 ^ 63) ≡ true = ground arith in rw small refl

share_le : (rate : ℕ) → second / rate ≤ second
share_le rate = grind arith

-- The clock's readings in their order; how many there were, and the times that were slept; and
-- a function that acts on another part of the world.
module _ {V : Type 0} (times : ℕ → ℕ) (f : V → Bool × V) where
  abbrev pub Log : Type 0
  Log = ℕ × List ℤ

  abbrev pub clock : Clock (V × Log)
  clock = record {
    timer_new = pure (ok tt);
    precise_time_ns = λ w. (done (times w.1.0), (w.0, (w.1.0 + 1, w.1.1)));
    nanosleep = λ d w. (done tt, (w.0, (w.1.0, w.1.1 ++ d ∷ [])));
  }

  abbrev pub called : Action (V × Log) Bool
  called w = (done (f w.0).0, ((f w.0).1, w.1))

  -- The function answers true so many times, and then false.
  abbrev pub StopsAt : ℕ → V → V → Type 0
  StopsAt zero v v' = f v ≡ (false, v')
  StopsAt (suc n) v v' = ((f v).0 ≡ true) × StopsAt n (f v).1 v'

  -- What is left of each round's share, as an integer, from some reading on.
  abbrev pub left_over : ℕ → ℕ → ℕ → List ℤ
  left_over time k zero = []
  left_over time k (suc n) = (pos time -ℤ pos (times (k + 1) - times k)) ∷ left_over time (k + 2) n

  module _ (forward : (k : ℕ) → times k ≤ times (k + 1)) (early : (k : ℕ) → times k < 2 ^ 63) where
    rounds-StopsAt :
        (n fuel time k : ℕ) (v v' : V) (slept : List ℤ)
        → time ≤ second
        → n < fuel
        → StopsAt n v v'
        → rounds clock called fuel (pos time) (v, (k, slept))
          ≡ (done tt, (v', (k + (2 * n + 1), slept ++ left_over time k n)))
    unfolding rounds
    rounds-StopsAt zero zero time k v v' slept t h s = absurd (omega arith)
    rounds-StopsAt (suc n) zero time k v v' slept t h s = absurd (omega arith)
    rounds-StopsAt zero (suc fuel) time k v v' slept t h s = rw (s, append-nil slept) refl
    rounds-StopsAt (suc n) (suc fuel) time k v v' slept t h (more, s) =
        let d = checked_sub-span time (times k) (times (k + 1)) t (forward k) (early (k + 1)) in
        let rest =
          rounds-StopsAt n fuel time (k + 2) (f v).1 v'
            (slept ++ (pos time -ℤ pos (times (k + 1) - times k)) ∷ []) t (omega arith) s in
        let two : k + 1 + 1 ≡ k + 2 = omega arith in
        let readings : k + 2 + (2 * n + 1) ≡ k + (2 * suc n + 1) = omega arith in
        rw (more, d, two)
          (rest
            ∙ rw
                (
                  readings,
                  append_assoc slept ((pos time -ℤ pos (times (k + 1) - times k)) ∷ [])
                      (left_over time (k + 2) n),
                )
                refl)

    -- Where the readings of the clock do not go back and are below 2 ^ 63, and a function answers
    -- true some number of times and then false, a loop with fuel for more rounds than that, at a
    -- rate that is at least 1 and below 2 ^ 63, ends: the function is called once more than that
    -- number and not again, and after each of its first calls the loop sleeps for what is left of
    -- the call's share of a second, as an integer that is negative where the call took longer. At
    -- the rate 0 the loop panics before the first call.
    pub fixed_loop-StopsAt :
        (n fuel rate : ℕ) (v v' : V)
        → 0 < rate
        → rate < 2 ^ 63
        → n < fuel
        → StopsAt n v v'
        → (fixed_loop clock called fuel rate (v, (0, []))
            ≡ (done tt, (v', (2 * n + 1, left_over (second / rate) 0 n))))
          × (fixed_loop clock called fuel 0 (v, (0, [])) ≡ (panicked, (v, (0, []))))
    unfolding fixed_loop loop_time
    fixed_loop-StopsAt n fuel rate v v' low high h s =
        let from_zero : 0 + (2 * n + 1) ≡ 2 * n + 1 = omega arith in
        (
          rw (loop_time_lem {W = V × Log} rate (v, (0, [])) low high) (
              rounds-StopsAt n fuel (second / rate) 0 v v' [] (share_le rate) h s
              ∙ rw from_zero refl),
          refl,
        )
