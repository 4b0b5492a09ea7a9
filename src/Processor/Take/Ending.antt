-- ===== src/Processor/Take/Ending.antt =====
-- A `Take` refuses the value after its last one, whatever its subscriber does.
use rx_rust.Base.{
  ℕ, zero, suc, ◌≤◌, ◌+◌, ◌%◌, ◌^◌, ◌<◌, ◌≡◌, Bool, true, false, some, List, [], ◌∷◌, length, arith,
  ltb,
}
use rx_rust.Effect.{Outcome, done, panicked, out_of_fuel, pure, continue}
use rx_rust.Reactive.{Subscriber}
use rx_rust.Reactive.Endless.{Onward, Refuses}
use rx_rust.Processor.Take.{Take, counted, on_next, take_subscriber}
use rx_rust.Processor.Take.Delivery.{taken}

module _ {W S O : Type 0} (d : Subscriber W S O) (limit : ℕ) (fits : suc limit < 2 ^ 64) where
  refused :
      (P : Take W S O → W → Type 0) (put : S → Take W S O) (r : Outcome S × W)
      → Onward P (continue r (λ s. pure (put s, false)))
  refused P put (done s, w) = tt
  refused P put (panicked, w) = tt
  refused P put (out_of_fuel, w) = tt

  passed_on :
      (P : Take W S O → W → Type 0) (put : S → Take W S O)
      → ((s : S) (w : W) → P (put s) w)
      → (r : Outcome (S × Bool) × W) → Onward P (continue r (λ a. pure (put a.0, a.1)))
  passed_on P put h (done (s, true), w) = h s w
  passed_on P put h (done (s, false), w) = tt
  passed_on P put h (panicked, w) = tt
  passed_on P put h (out_of_fuel, w) = tt

  pub stops :
      (left n : ℕ) (xs : List O) (s : S) (w : W)
      → n + left ≡ limit
      → length xs ≡ suc left
      → Refuses (take_subscriber d) xs (taken limit n s) w
  unfolding Refuses take_subscriber on_next counted
  stops left n [] s w e len = absurd (omega (arith, len))
  stops zero n (x ∷ xs) s w e len =
      let over : ltb limit ((n + 1) % 2 ^ 64) ≡ true = ground arith in
      rw (over, counted) (refused _ _ (d.on_complete s false w))
  stops (suc left) n (x ∷ xs) s w e len =
      let one_more : (n + 1) % 2 ^ 64 ≡ suc n = omega arith in
      let below : ltb limit (suc n) ≡ false = ground arith in
      rw (one_more, below, counted)
        (passed_on _ (taken limit (suc n))
          (λ s' w'. stops left (suc n) xs s' w' (omega arith) (omega (arith, len)))
          (d.on_next s x w))

-- A `Take` with any history.
abbrev pub counting : {W S O : Type 0} → ℕ → ℕ → Bool → S → Take W S O
counting limit n told s = record {
  count = n;
  max = limit;
  notified = told;
  link = record { subscriber = some s; index = some 0 };
}

module _ {W S O : Type 0} (d : Subscriber W S O) (x : O) (limit n : ℕ) (told : Bool) (s : S)
    (w : W) where
  pub on_next_below :
      n < limit
      → limit < 2 ^ 64
      → on_next d (counting limit n told s) x w
        ≡ continue (d.on_next s x w) (λ a. pure (counting limit (suc n) told a.0, a.1))
  unfolding on_next counted
  on_next_below h fits =
      let one_more : (n + 1) % 2 ^ 64 ≡ suc n = omega arith in
      let below : ltb limit (suc n) ≡ false = ground arith in rw (one_more, below, counted)

  pub on_next_full :
      limit ≤ n
      → suc n < 2 ^ 64
      → on_next d (counting limit n told s) x w
        ≡ continue (d.on_complete s false w) (λ s'. pure (counting limit (suc n) true s', false))
  unfolding on_next counted
  on_next_full h fits =
      let one_more : (n + 1) % 2 ^ 64 ≡ suc n = omega arith in
      let over : ltb limit (suc n) ≡ true = ground arith in rw (one_more, over, counted)
