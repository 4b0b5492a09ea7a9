-- ===== src/Pipeline/RepeatTake.antt =====
-- A `Repeat` that publishes to a `Take`.
use rx_rust.Base.{
  false, none, ℕ, zero, suc, ◌<◌, ◌^◌, ◌≡◌, refl, ap, ◌∙◌, Option, some, ◌∷◌, replicate,
  length-replicate, take, arith,
}
use rx_rust.Effect.{Outcome, done, panicked, out_of_fuel, Action, continue, pure, ◌>>=◌}
use rx_rust.Reactive.{Subscriber, run}
use rx_rust.Reactive.Feed.{deliver, session, mapped}
use rx_rust.Reactive.Stages.{through, mapped-through}
use rx_rust.Processor.Take
use rx_rust.Processor.Take.{Take, take_subscriber}
use rx_rust.Processor.Take.Delivery.{taken, from}
use rx_rust.Processor.Take.Ending.{stops}
use rx_rust.Publisher.Repeat
use rx_rust.Publisher.Repeat.{Repeat, repeat_publisher}
use rx_rust.Publisher.Repeat.Delivery.{loop-deliver}

-- The chain, linked and run.
unfoldable pub chain :
    {W S O : Type 0} → Subscriber W S O → ℕ → O → ℕ → S → Action W (Repeat (Take W S O) O)
chain d limit x fuel s = do
  m ← Take.subscribe d (Take.new limit) s
  p ← Repeat.subscribe (take_subscriber d) (Repeat.new x) m
  run (repeat_publisher (take_subscriber d)) fuel p

abbrev pub tail_of : {W S O : Type 0} → Repeat (Take W S O) O → Option S
tail_of = through (λ p. p.subscriber) (λ m. m.subscriber)

take-replicate : {O : Type 0} (n : ℕ) (x : O) → take n (replicate (suc n) x) ≡ replicate n x
take-replicate zero x = refl
take-replicate (suc n) x = ap (◌∷◌ x) (take-replicate n x)

module _ {W S O : Type 0} (d : Subscriber W S O) (limit : ℕ) (x : O)
    (fits : suc limit < 2 ^ 64) where
  started :
      (fuel : ℕ)
      → limit < fuel
      → (s : S) (w : W)
      → mapped tail_of (
          run
            (repeat_publisher (take_subscriber d))
            fuel
            (record { val = x; subscriber = some (taken limit 0 s) })
            w)
        ≡ mapped some (deliver d (replicate limit x) s w)
  started fuel h s w =
      mapped-through (λ p. p.subscriber) (λ m. m.subscriber) _ _
        (loop-deliver (take_subscriber d) x (suc limit) fuel (taken limit 0 s) w (omega arith) (
          stops d limit fits limit 0 (replicate (suc limit) x) s w (omega arith)
            (length-replicate (suc limit) x)))
      ∙ from d limit fits 0 (replicate (suc limit) x) limit s w (omega arith)
      ∙ ap (λ ys. mapped some (deliver d ys s w)) (take-replicate limit x)

  -- Where the limit of the `Take` is below 2 ^ 64 - 1, so that its count does not wrap round, the
  -- endless loop of a `Repeat` in front of it ends, within one round for each value that `Take` lets through
  -- and one more, and the subscriber gets that many copies of the value, up to the one that it
  -- refuses, and the end of the stream if it refuses none.
  pub run-Repeat-Take :
      (fuel : ℕ)
      → limit < fuel
      → (s : S) (w : W)
      → mapped tail_of (chain d limit x fuel s w) ≡ mapped some (session d (replicate limit x) s w)
  unfolding chain Take.new Take.subscribe Repeat.new Repeat.subscribe take_subscriber
  run-Repeat-Take fuel h s w = linked (d.on_subscribe s 0 w)
    where
      linked :
          (r : Outcome S × W)
          → mapped tail_of (
              continue {A = Take W S O}
                (continue r (λ s'. pure (record {
                  count = 0;
                  max = limit;
                  notified = false;
                  link = record { subscriber = some s'; index = none };
                })))
                (λ m w'.
                  continue {A = Repeat (Take W S O) O}
                    (Repeat.subscribe (take_subscriber d) (Repeat.new x) m w')
                    (run (repeat_publisher (take_subscriber d)) fuel)))
            ≡ mapped some (continue r (deliver d (replicate limit x)))
      linked (done s', w') = started fuel h s' w'
      linked (panicked, w') = refl
      linked (out_of_fuel, w') = refl
