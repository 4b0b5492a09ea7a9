-- ===== src/Reactor/Draining.antt =====
-- The write queue of a connection: no byte is lost, doubled or moved, and the loop ends.
use mathlib.Core.List.{append_assoc}
use rx_rust.Base.{
  ℕ, zero, suc, ◌+◌, ◌≤◌, ◌<◌, ◌≡◌, refl, sym, ap, ◌∙◌, Bool-cases, inl, inr, List, [], ◌∷◌, ◌++◌,
  length, take, drop, take-append-drop, length-drop, arith, ◌==◌, if◌then◌else◌,
}
use rx_rust.Effect.{Outcome, done, panicked, out_of_fuel, ok, err, Action, continue, pure}
use rx_rust.Protocol.{Iobuf}
use rx_rust.Reactor.Connection.{StreamBuf, ready, would_block, MioResult, after_write, drain}

take-length : (xs : List ℕ) → take (length xs) xs ≡ xs
take-length [] = refl
take-length (x ∷ xs) = ap (◌∷◌ x) (take-length xs)

-- The bytes, where some were taken from the front.
regroup :
    (n : ℕ) (xs rest before : List ℕ)
    → (before ++ take n xs) ++ (drop n xs ++ rest) ≡ before ++ (xs ++ rest)
regroup n xs rest before =
    append_assoc before (take n xs) (drop n xs ++ rest)
    ∙ ap (◌++◌ before) (
        sym (append_assoc (take n xs) (drop n xs) rest)
        ∙ ap (λ (ys : List ℕ). ys ++ rest) (take-append-drop n xs))

module _ {W B : Type 0} (io : Iobuf B) (sent : W → List ℕ) where
  open io use {bytes, len, len_lem}

  -- What a write to a socket does: it takes bytes from the front of the buffer, at least one if
  -- there is one, and puts them on the wire; or it blocks or fails, and changes neither.
  abbrev pub Wrote : B → W → Outcome (MioResult ℕ × B) × W → Type 0
  Wrote b w (done (ok (ready n), b'), w') =
      (n ≤ length (bytes b))
      × (0 < length (bytes b) → 0 < n)
      × (sent w' ≡ sent w ++ take n (bytes b))
      × (bytes b' ≡ drop n (bytes b))
  Wrote b w (done (ok would_block, b'), w') = (sent w' ≡ sent w) × (bytes b' ≡ bytes b)
  Wrote b w (done (err e, b'), w') = (sent w' ≡ sent w) × (bytes b' ≡ bytes b)
  Wrote b w (panicked, w') = ⊥
  Wrote b w (out_of_fuel, w') = ⊥

  -- The bytes that wait in a queue, and how many rounds they can take.
  abbrev pub queued : List (StreamBuf B) → List ℕ
  queued [] = []
  queued (b ∷ bs) = bytes b.buf ++ queued bs

  abbrev pub rounds : List (StreamBuf B) → ℕ
  rounds [] = 1
  rounds (b ∷ bs) = suc (length (bytes b.buf)) + rounds bs

  -- The loop has ended, and what is on the wire and what still waits are, one behind the other,
  -- what they were; no buffer has been added to the queue.
  abbrev pub Drained : List (StreamBuf B) → W → Outcome (List (StreamBuf B)) × W → Type 0
  Drained out w (done out', w') =
      (sent w' ++ queued out' ≡ sent w ++ queued out) × (length out' ≤ length out)
  Drained out w (panicked, w') = ⊥
  Drained out w (out_of_fuel, w') = ⊥

  Drained-from :
      (out out₁ : List (StreamBuf B)) (w w₁ : W)
      → sent w₁ ++ queued out₁ ≡ sent w ++ queued out
      → length out₁ ≤ length out
      → (r : Outcome (List (StreamBuf B)) × W) → Drained out₁ w₁ r
      → Drained out w r
  Drained-from out out₁ w w₁ e h (done out', w') d = (d.0 ∙ e, omega (arith, d.1))
  Drained-from out out₁ w w₁ e h (panicked, w') d = d
  Drained-from out out₁ w w₁ e h (out_of_fuel, w') d = d

  module _ {Sock : Type 0} (write : Sock → B → Action W (MioResult ℕ × B)) where
    -- The rest of a round, from the answer to the write on.
    written :
        (fuel : ℕ) (s : Sock) (b : StreamBuf B) (bs : List (StreamBuf B)) (w : W)
        → rounds (b ∷ bs) ≤ suc fuel
        → ((out : List (StreamBuf B)) (w' : W)
            → rounds out ≤ fuel
            → Drained out w' (drain io write fuel s out w'))
        → (r : Outcome (MioResult ℕ × B) × W) → Wrote b.buf w r
        → Drained (b ∷ bs) w (
            continue r (λ a.
              let left = after_write a.0 (len b.buf) (record b { buf = a.1 }) bs in
              if left.1 then drain io write fuel s left.0 else pure left.0))
    written fuel s b bs w h ih (done (ok (ready n), b'), w') (fits, some_taken, on_wire, left) =
        elim (Bool-cases (n == len b.buf)) [
          | inl whole ↦
              let all_of_it : n ≡ length (bytes b.buf) = ground (arith, len_lem b.buf) in
              rw (whole, after_write)
                (Drained-from (b ∷ bs) bs w w'
                  (rw (on_wire, all_of_it, take-length (bytes b.buf))
                    (append_assoc (sent w) (bytes b.buf) (queued bs)))
                  (omega arith) _ (ih bs w' (omega arith)))
          | inr part ↦
              let less : n < length (bytes b.buf) = ground (arith, len_lem b.buf) in
              rw (part, after_write)
                (Drained-from (b ∷ bs) (record b { buf = b' } ∷ bs) w w'
                  (rw (on_wire, left) (regroup n (bytes b.buf) (queued bs) (sent w))) (omega arith)
                  _
                  (ih (record b { buf = b' } ∷ bs) w' (
                    omega (
                      arith,
                      ap length left,
                      length-drop n (bytes b.buf),
                      some_taken (omega arith),
                    ))))
        ]
    written fuel s b bs w h ih (done (ok would_block, b'), w') (same, left) =
        (rw (same, left) refl, omega arith)
    written fuel s b bs w h ih (done (err e, b'), w') (same, left) =
        (rw (same, left) refl, omega arith)
    written fuel s b bs w h ih (panicked, w') d = d
    written fuel s b bs w h ih (out_of_fuel, w') d = d

    -- Where every write to a socket ends without a panic, and either takes bytes from the front of the
    -- buffer, at least one if there is one, and puts them on the wire, or blocks or fails and changes
    -- neither, draining ends, within one round for each byte and each buffer that waits and one more. Then
    -- the bytes on the wire followed by those that still wait are the bytes that were on the wire
    -- followed by those that waited, in the same order, and the queue has not grown.
    pub drain-Drained :
        ((s : Sock) (b : B) (w : W) → Wrote b w (write s b w))
        → (fuel : ℕ) (s : Sock) (out : List (StreamBuf B)) (w : W) → rounds out ≤ fuel
        → Drained out w (drain io write fuel s out w)
    unfolding drain
    drain-Drained wrote zero s [] w h = absurd (omega arith)
    drain-Drained wrote zero s (b ∷ bs) w h = absurd (omega arith)
    drain-Drained wrote (suc fuel) s [] w h = (refl, omega arith)
    drain-Drained wrote (suc fuel) s (b ∷ bs) w h =
        written fuel s b bs w h (λ out w' k. drain-Drained wrote fuel s out w' k) (write s b.buf w)
          (wrote s b.buf w)
