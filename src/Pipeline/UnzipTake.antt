-- ===== src/Pipeline/UnzipTake.antt =====
-- An `Unzip` that passes its values on to a `Take`.
use rx_rust.Base.{ℕ, suc, ◌^◌, ◌<◌, ◌≡◌, true, false, Option, some, List, ◌∷◌, arith}
use rx_rust.Effect.{done}
use rx_rust.Reactive.{Subscriber}
use rx_rust.Reactive.Feed.{deliver, mapped}
use rx_rust.Reactive.Stages.{through}
use rx_rust.Processor.Take.{Take, take_subscriber}
use rx_rust.Processor.Take.Ending.{counting, on_next_below, on_next_full}
use rx_rust.Processor.Unzip
use rx_rust.Processor.Unzip.{Unzip, unzip_subscriber}
use rx_rust.Processor.Unzip.Delivery.{unzipping}

abbrev pub tail_of : {W S O : Type 0} → Unzip W (Take W S O) O → Option S
tail_of = through (λ p. p.subscriber) (λ m. m.subscriber)

module _ {W S O : Type 0} (d : Subscriber W S O) (n : ℕ) (fits : suc (suc (suc (suc n))) < 2 ^ 64)
    {s s₁ s₂ s₃ s₄ : S} {w w₁ w₂ w₃ w₄ : W} (x y : O × O) where
  -- An `Unzip` does not stop at the end that a `Take` sets to its stream: where the first half of a
  -- pair is the last value that `Take` lets through, with a limit so low that the count stays below 2 ^ 64
  -- for four values more, the subscriber takes it, and the three calls of its on_complete that follow
  -- return, the end of the
  -- stream is announced to the subscriber three times, for the second half and for both halves of
  -- the next pair, before the delivery ends.
  pub deliver-Unzip-Take :
      d.on_next s x.0 w ≡ (done (s₁, true), w₁)
      → d.on_complete s₁ false w₁ ≡ (done s₂, w₂)
      → d.on_complete s₂ false w₂ ≡ (done s₃, w₃)
      → d.on_complete s₃ false w₃ ≡ (done s₄, w₄)
      → (xs : List (O × O))
      → mapped tail_of (
          deliver
            (unzip_subscriber (take_subscriber d))
            (x ∷ y ∷ xs)
            (unzipping (counting (suc n) n false s))
            w)
        ≡ (done (some s₄), w₄)
  unfolding deliver Unzip.on_next unzip_subscriber take_subscriber
  deliver-Unzip-Take passed first second third xs = rw (
    on_next_below d x.0 (suc n) n false s w (omega arith) (omega arith),
    passed,
    on_next_full d x.1 (suc n) (suc n) false s₁ w₁ (omega arith) (omega arith),
    first,
    on_next_full d y.0 (suc n) (suc (suc n)) true s₂ w₂ (omega arith) (omega arith),
    second,
    on_next_full d y.1 (suc n) (suc (suc (suc n))) true s₃ w₃ (omega arith) (omega arith),
    third,
  )
