-- ===== src/Processor/Take/Delivery.antt =====
-- What the subscriber of a `Take` gets.
use rx_rust.Base.{
  zero, ℕ, suc, ◌+◌, ◌%◌, ◌^◌, ◌<◌, ◌≡◌, refl, Bool, true, false, Option, none, some, List, [], ◌∷◌,
  arith, take, ltb, if◌then◌else◌,
}
use rx_rust.Effect.{Outcome, done, panicked, out_of_fuel, pure, continue, ◌>>=◌}
use rx_rust.Reactive.{Subscriber}
use rx_rust.Reactive.Feed.{deliver, session, mapped}
use rx_rust.DefaultMacros.{Link}
use rx_rust.Processor.Take.{put, Take, new, subscribe, counted, on_next, take_subscriber}

-- A `Take` that has a subscriber and its own index, and has passed on `n` values.
abbrev pub taken : {W S O : Type 0} → ℕ → ℕ → S → Take W S O
taken limit n s = record {
  count = n;
  max = limit;
  notified = false;
  link = record { subscriber = some s; index = some 0 };
}

module _ {W S O : Type 0} (d : Subscriber W S O) (limit : ℕ) (fits : suc limit < 2 ^ 64) where
  abbrev seen : Take W S O → Option S
  seen m = m.subscriber

  answered :
      (n : ℕ) (xs ys : List O)
      → ((s : S) (w : W)
          → mapped seen (deliver (take_subscriber d) xs (taken limit n s) w)
            ≡ mapped some (deliver d ys s w))
      → (r : Outcome (S × Bool) × W)
      → mapped seen (
          continue {A = Take W S O × Bool}
            (continue r (λ a. pure (taken limit n a.0, a.1)))
            (λ a. if a.1 then deliver (take_subscriber d) xs a.0 else pure a.0))
        ≡ mapped some (continue r (λ a. if a.1 then deliver d ys a.0 else pure a.0))
  answered n xs ys ih (done (s, true), w) = ih s w
  answered n xs ys ih (done (s, false), w) = refl
  answered n xs ys ih (panicked, w) = refl
  answered n xs ys ih (out_of_fuel, w) = refl

  ended :
      (put : S → Take W S O) (xs : List O)
      → ((s : S) → seen (put s) ≡ some s)
      → (r : Outcome S × W)
      → mapped seen (
          continue {A = Take W S O × Bool}
            (continue r (λ s. pure (put s, false)))
            (λ a. if a.1 then deliver (take_subscriber d) xs a.0 else pure a.0))
        ≡ mapped some r
  ended put xs h (done s, w) = rw (h s)
  ended put xs h (panicked, w) = refl
  ended put xs h (out_of_fuel, w) = refl

  completed :
      (n : ℕ) (s : S) (r : Outcome S × W)
      → mapped seen (
          continue
            (continue {B = Link S} r (λ s'. pure (record { subscriber = some s'; index = some 0 })))
            (λ l. pure (put (taken limit n s) l)))
        ≡ mapped some r
  completed n s (done s', w) = refl
  completed n s (panicked, w) = refl
  completed n s (out_of_fuel, w) = refl

  pub from :
      (n : ℕ) (xs : List O) (left : ℕ) (s : S) (w : W)
      → n + left ≡ limit
      → mapped seen (deliver (take_subscriber d) xs (taken limit n s) w)
        ≡ mapped some (deliver d (take left xs) s w)
  unfolding deliver on_next counted take_subscriber
  from n [] zero s w e = completed n s (d.on_complete s false w)
  from n [] (suc left) s w e = completed n s (d.on_complete s false w)
  from n (x ∷ xs) zero s w e =
      let over : ltb limit ((n + 1) % 2 ^ 64) ≡ true = ground arith in
      rw (over, counted)
        (ended (λ s'. record (taken limit n s') { count = (n + 1) % 2 ^ 64; notified = true }) xs
          (λ s'. refl) (d.on_complete s false w))
  from n (x ∷ xs) (suc left) s w e =
      let one_more : (n + 1) % 2 ^ 64 ≡ suc n = omega arith in
      let below : ltb limit (suc n) ≡ false = ground arith in
      rw (one_more, below, counted)
        (answered (suc n) xs (take left xs) (λ s' w'. from (suc n) xs left s' w' (omega arith))
          (d.on_next s x w))

  started :
      (xs : List O) (r : Outcome S × W)
      → mapped seen (
          continue
            (continue r (λ s.
              pure
                (record (taken limit 0 s) { link = record { subscriber = some s; index = none } })))
            (session (take_subscriber d) xs))
        ≡ mapped some (continue r (deliver d (take limit xs)))
  unfolding take_subscriber
  started xs (done s, w) = from 0 xs limit s w (omega arith)
  started xs (panicked, w) = refl
  started xs (out_of_fuel, w) = refl

  -- A subscriber of `Take` gets the first values, as many as the limit says, and then the end of
  -- the stream once, whether the values go on or not, where the limit is below 2 ^ 64 - 1.
  pub deliver-Take :
      (xs : List O) (s : S) (w : W)
      → mapped
          (λ m. m.subscriber)
          ((subscribe d (new limit) s >>= session (take_subscriber d) xs) w)
        ≡ mapped some (session d (take limit xs) s w)
  unfolding new subscribe
  deliver-Take xs s w = started xs (d.on_subscribe s 0 w)
