-- ===== src/MmapAllocator/Totals.antt =====
-- Sums over the calls of an arena, and what a change of one call does to them.
use rx_rust.Base.{ℕ, zero, suc, ◌+◌, ◌*◌, ◌≤◌, ◌≡◌, refl, some, List, [], ◌∷◌, length, arith}
use rx_rust.MmapAllocator.Arena.{Call, call_at, replace}

abbrev pub total : (Call → ℕ) → List Call → ℕ
total f [] = 0
total f (c ∷ cs) = f c + total f cs

pub total-replace :
    (f : Call → ℕ) (cs : List Call) (i : ℕ) (c c' : Call)
    → call_at cs i ≡ some c
    → total f (replace cs i c') + f c ≡ total f cs + f c'
total-replace f [] i c c' e = cc
total-replace f (x ∷ cs) zero c c' e = let same : x ≡ c = cc in rw same (omega arith)
total-replace f (x ∷ cs) (suc i) c c' e = omega (arith, total-replace f cs i c c' e)

pub length-replace : (cs : List Call) (i : ℕ) (c : Call) → length (replace cs i c) ≡ length cs
length-replace [] i c = refl
length-replace (x ∷ cs) zero c = refl
length-replace (x ∷ cs) (suc i) c = omega (arith, length-replace cs i c)

pub total_mono :
    (f g : Call → ℕ) (k : ℕ) (cs : List Call)
    → ((c : Call) → f c ≤ g c + k)
    → total f cs ≤ total g cs + length cs * k
total_mono f g k [] h = omega arith
total_mono f g k (c ∷ cs) h = let here = h c in let rest = total_mono f g k cs h in grind arith

pub total_bounded :
    (f : Call → ℕ) (k : ℕ) (cs : List Call) → ((c : Call) → f c ≤ k) → total f cs ≤ length cs * k
total_bounded f k [] h = omega arith
total_bounded f k (c ∷ cs) h = let here = h c in let rest = total_bounded f k cs h in grind arith
