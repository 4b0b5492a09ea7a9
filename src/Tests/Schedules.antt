-- ===== src/Tests/Schedules.antt =====
-- The scheduler's loop at a concrete clock.
use rx_rust.Base.{
  ℕ, zero, suc, ◌+◌, ◌/◌, ◌≤◌, ◌<◌, ◌^◌, ◌≡◌, refl, Bool, true, false, [], ◌∷◌, arith, ltb,
  if◌then◌else◌,
}
use rx_rust.Base.Int.{pos, negsuc}
use rx_rust.Effect.{done, panicked}
use rx_rust.MemberFn.{bound, call1, new1, winning}
use rx_rust.Scheduler.{second, fixed_loop}
use rx_rust.Scheduler.Rounds.{clock, called, left_over, fixed_loop-StopsAt}

-- Two calls that take 5 and 600,000,000 nanoseconds, at two rounds a second.
abbrev times : ℕ → ℕ
times k =
    if ltb k 1 then 100 else if ltb k 2 then 105 else if ltb k 3 then 600000000 else 1200000000

times-forward : (k : ℕ) → times k ≤ times (k + 1)
times-forward k = ground arith

times-early : (k : ℕ) → times k < 2 ^ 63
times-early k = ground arith

-- A countdown.
abbrev more : ℕ → Bool × ℕ
more zero = (false, 9)
more (suc n) = (true, n)

-- The first round leaves 499,999,995 nanoseconds, the second one is late by 100,000,000.
left_over_lem : left_over times more (second / 2) 0 2 ≡ pos 499999995 ∷ negsuc 99999999 ∷ []
left_over_lem = refl

fixed_loop-StopsAt_example :
    (fixed_loop (clock times more) (called times more) 3 2 (2, (0, []))
      ≡ (done tt, (9, (5, left_over times more (second / 2) 0 2))))
    × (fixed_loop (clock times more) (called times more) 3 0 (2, (0, []))
        ≡ (panicked, (2, (0, []))))
fixed_loop-StopsAt_example =
    fixed_loop-StopsAt times more times-forward times-early 2 3 2 2 9 (omega arith) (omega arith)
      (omega arith) (refl, (refl, refl))

-- The test of src/memberfn.rs.
call1_lem : {W : Type 0} (w : W) → call1 (bound {W = W} (record { x = 10 })) 10 w ≡ (done 20, w)
unfolding call1 bound new1 winning
call1_lem w = refl
