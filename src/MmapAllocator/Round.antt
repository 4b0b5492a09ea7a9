-- ===== src/MmapAllocator/Round.antt =====
-- The rounding of the allocator, as arithmetic.
use rx_rust.Base.{ℕ, ◌+◌, ◌-◌, ◌*◌, ◌/◌, ◌%◌, ◌^◌, ◌≤◌, ◌<◌, ◌≡◌, arith}
use rx_rust.Base.Bits.{bit_or_seven}
use rx_rust.MmapAllocator.{round_up, next_slot}

-- A position from 1 on, at least eight below the end of the address space, is taken to the least
-- multiple of eight that is not below it.
pub round_up_lem :
    (n : ℕ)
    → 1 ≤ n
    → n + 8 ≤ 2 ^ 64
    → (n ≤ round_up n) × (round_up n < n + 8) × (round_up n % 8 ≡ 0)
unfolding round_up
round_up_lem n h fits =
    let e = bit_or_seven ((n + 2 ^ 64 - 1) % 2 ^ 64) in
    (omega (arith, e), omega (arith, e), omega (arith, e))

pub next_slot_lem :
    (offset size : ℕ)
    → 1 ≤ offset
    → offset + size + 8 ≤ 2 ^ 64
    → (offset + size ≤ next_slot offset size) × (next_slot offset size % 8 ≡ 0)
unfolding next_slot
next_slot_lem offset size h fits =
    let e : (offset + size) % 2 ^ 64 ≡ offset + size = omega arith in
    let (low, _, aligned) = round_up_lem (offset + size) (omega arith) fits in rw e (low, aligned)

-- A request that reaches past the end of the address space does not move the cursor forward: the
-- next block begins at or before the block that was just handed out.
pub next_slot_wraps :
    (offset size : ℕ)
    → offset < 2 ^ 64
    → offset % 8 ≡ 0
    → size < 2 ^ 64
    → 2 ^ 64 < offset + size
    → next_slot offset size ≤ offset
unfolding next_slot round_up
next_slot_wraps offset size h a k over =
    omega (arith, bit_or_seven (((offset + size) % 2 ^ 64 + 2 ^ 64 - 1) % 2 ^ 64))

-- The bytes that a request takes: the next multiple of eight.
abbrev pub slot : ℕ → ℕ
slot size = (size + 7) / 8 * 8

pub next_slot-slot :
    (offset size : ℕ)
    → 1 ≤ offset
    → offset % 8 ≡ 0
    → offset + size + 8 ≤ 2 ^ 64
    → next_slot offset size ≡ offset + slot size
unfolding next_slot round_up
next_slot-slot offset size h a fits =
    omega (arith, bit_or_seven (((offset + size) % 2 ^ 64 + 2 ^ 64 - 1) % 2 ^ 64))
