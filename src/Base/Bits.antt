-- ===== src/Base/Bits.antt =====
-- The bitwise or with a mask of three ones, as arithmetic.
use Prim.Native.Nat.{ℕ, zero, suc, ◌+◌, ◌*◌, ◌/◌, ◌≤◌, max, digits, bit_or, bit_or-bitwise}
use mathlib.Core.Path.{◌≡◌, refl}
use native.Mathlib.Omega.{arith}

-- The or of the binary digits, with the fuel that the library's operation recurses on.
abbrev or_digits : ℕ → ℕ → ℕ → ℕ
or_digits = digits (λ y. y) max

-- Each mask is half of the next one.
mask_none : (n a : ℕ) → a ≤ n → or_digits n a 0 ≡ a
mask_none zero zero h = refl
mask_none (suc n) zero h = refl
mask_none zero (suc a) h = absurd (omega arith)
mask_none (suc n) (suc a) h = omega (arith, mask_none n (suc a / 2) (omega arith))

mask_one : (n a : ℕ) → a ≤ n → or_digits n a 1 ≡ a / 2 * 2 + 1
mask_one zero zero h = refl
mask_one (suc n) zero h = refl
mask_one zero (suc a) h = absurd (omega arith)
mask_one (suc n) (suc a) h = omega (arith, mask_none n (suc a / 2) (omega arith))

mask_three : (n a : ℕ) → a ≤ n → or_digits n a 3 ≡ a / 4 * 4 + 3
mask_three zero zero h = refl
mask_three (suc n) zero h = refl
mask_three zero (suc a) h = absurd (omega arith)
mask_three (suc n) (suc a) h = omega (arith, mask_one n (suc a / 2) (omega arith))

mask_seven : (n a : ℕ) → a ≤ n → or_digits n a 7 ≡ a / 8 * 8 + 7
mask_seven zero zero h = refl
mask_seven (suc n) zero h = refl
mask_seven zero (suc a) h = absurd (omega arith)
mask_seven (suc n) (suc a) h = omega (arith, mask_three n (suc a / 2) (omega arith))

-- Setting the three low bits.
pub bit_or_seven : (a : ℕ) → bit_or a 7 ≡ a / 8 * 8 + 7
bit_or_seven a = simp bit_or-bitwise (mask_seven a a (omega arith))
