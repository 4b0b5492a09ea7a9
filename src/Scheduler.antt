-- ===== src/Scheduler.antt =====
-- src/scheduler.rs: a loop that calls a function again and again, at most so many times per second.
-- The clock, the timer and the sleep are parameters.
pub mod Rounds
use rx_rust.Base.{ℕ, zero, suc, ◌+◌, ◌-◌, ◌/◌, ◌%◌, ◌^◌, Bool, Option, none, some, if◌then◌else◌}
use rx_rust.Base.Int.{ℤ, pos, negsuc, sub_ℕ, ◌-ℤ◌, signed64, fit64}
use rx_rust.Effect.{out_of_fuel, Result, ok, err, Action, pure, panic, ◌>>=◌}

-- `precise_time_ns` gives a `u64`; `nanosleep` takes the `tv_nsec` of a `timespec` whose `tv_sec`
-- is 0.
pub record Clock (W : Type 0) : Type 0 where
  pub timer_new : Action W (Result (Unit {0}) (Unit {0}))
  pub precise_time_ns : Action W ℕ
  pub nanosleep : ℤ → Action W (Unit {0})

-- `1_000_000_000i64 / rate as i64`, which panics where the divisor is 0.
abbrev pub second : ℕ
second = 1000000000

abbrev pub divided : {W : Type 0} → ℤ → Action W ℤ
divided (pos zero) = panic
divided (pos (suc n)) = pure (pos (second / suc n))
divided (negsuc n) = pure (sub_ℕ 0 (second / suc n))

unfoldable pub loop_time : {W : Type 0} → ℕ → Action W ℤ
loop_time rate = divided (signed64 rate)

-- `precise_time_ns() as i64 - start`, on machine words.
unfoldable pub span : ℕ → ℕ → ℤ
span start end_ = signed64 ((end_ + 2 ^ 64 - start) % 2 ^ 64)

-- `loop_time_ns.checked_sub(span)`
unfoldable pub checked_sub : ℤ → ℤ → Option ℤ
checked_sub a b = fit64 (a -ℤ b)

-- The sleep at the end of a round.
abbrev pub pause : {W : Type 0} → Clock W → Option ℤ → Action W (Unit {0})
pause c (some diff) = c.nanosleep diff
pause c none = pure tt

-- The timer that is made and not used.
abbrev pub unwrap_timer : {W : Type 0} → Result (Unit {0}) (Unit {0}) → Action W (Unit {0})
unwrap_timer (ok _) = pure tt
unwrap_timer (err _) = panic

module _ {W : Type 0} (c : Clock W) (f : Action W Bool) where
  -- The loop.
  unfoldable pub rounds : ℕ → ℤ → Action W (Unit {0})
  rounds zero time w = (out_of_fuel, w)
  rounds (suc fuel) time w =
      (do
        start ← c.precise_time_ns
        more ← f
        if more
            then (do
              end_ ← c.precise_time_ns
              _ ← pause c (checked_sub time (span start end_))
              rounds fuel time)
            else pure tt)
        w

  unfoldable pub fixed_loop : ℕ → ℕ → Action W (Unit {0})
  fixed_loop fuel rate = do
    r ← c.timer_new
    _ ← unwrap_timer r
    time ← loop_time rate
    rounds fuel time
