-- ===== src/MmapAllocator/Journal/Blocks.antt =====
-- Where the blocks of a journal lie.
use rx_rust.Base.{
  ℕ, zero, suc, ◌+◌, ◌*◌, ◌%◌, ◌^◌, ◌≤◌, ◌≡◌, refl, true, false, inl, inr, Bool-cases, Option, none,
  some, List, [], ◌∷◌, arith, ltb, if◌then◌else◌,
}
use rx_rust.Effect.{done}
use rx_rust.MmapAllocator.{MappedRegion, round_up}
use rx_rust.MmapAllocator.Round.{slot, next_slot-slot}
use rx_rust.MmapAllocator.Bounds.{allocate_lem}
use rx_rust.MmapAllocator.Files.{File, new, load, drop}
use rx_rust.MmapAllocator.Reload.{working, header_at}
use rx_rust.MmapAllocator.Journal.{kept, allocate_in, allocations, journal}

-- The block at a place, or null where it would begin past the end of the file.
abbrev pub block : ℕ → ℕ → ℕ → Option ℕ
block addr total offset = if ltb total offset then none else some ((addr + offset) % 2 ^ 64)

-- Blocks of a size, one behind the other.
abbrev pub blocks : ℕ → ℕ → ℕ → ℕ → ℕ → List (Option ℕ)
blocks addr total offset size zero = []
blocks addr total offset size (suc n) =
    block addr total offset ∷ blocks addr total (offset + slot size) size n

pub allocate_in_lem :
    (r : MappedRegion) (size : ℕ) (f : File)
    → 1 ≤ f.header.current
    → f.header.current % 8 ≡ 0
    → f.header.current + size + 8 ≤ 2 ^ 64
    → (t : ℕ) × (allocate_in r size f ≡ (
      done (record r { count = t }, block r.addr r.total_size f.header.current),
      record f { header = record f.header { current = f.header.current + slot size } },
    ))
unfolding allocate_in
allocate_in_lem r size f h a fits =
    let next = next_slot-slot f.header.current size h a fits in
    elim (Bool-cases (ltb r.total_size f.header.current)) [
      | inl past ↦ (r.count, rw ((allocate_lem r f.header size).0, past, kept, next) refl)
      | inr within ↦
          ((r.count + 1) % 2 ^ 64, rw ((allocate_lem r f.header size).0, within, kept, next) refl)
    ]

pub suc_times : (n s : ℕ) → suc n * s ≡ s + n * s
suc_times n s = grind arith

allocations-blocks :
    (n size : ℕ) (r : MappedRegion) (f : File)
    → 1 ≤ f.header.current
    → f.header.current % 8 ≡ 0
    → f.header.current + n * slot size + size + 8 ≤ 2 ^ 64
    → (t : ℕ) × (allocations n size r f ≡ (
      done (record r { count = t }, blocks r.addr r.total_size f.header.current size n),
      record f { header = record f.header { current = f.header.current + n * slot size } },
    ))
unfolding allocations
allocations-blocks zero size r f h a fits =
    let same : f.header.current + 0 * slot size ≡ f.header.current = omega arith in
    (r.count, rw same refl)
allocations-blocks (suc n) size r f h a fits =
    let more = suc_times n (slot size) in
    let (t, e) = allocate_in_lem r size f h a (omega (arith, fits, more)) in
    let f' = record f { header = record f.header { current = f.header.current + slot size } } in
    let (t', e') =
      allocations-blocks n size (record r { count = t }) f' (omega arith) (omega arith)
        (omega (arith, fits, more)) in
    let later : f.header.current + suc n * slot size
        ≡ f.header.current + slot size + n * slot size =
      omega (arith, more) in
    (t', rw (e, e', later) refl)

-- Where the system calls succeed and the cursor does not come near the end of the address space, a
-- region that is made, used for some number of requests of one size, dropped, loaded and used for
-- some number of requests of another size hands out the places behind the header one by one: a
-- request takes the next multiple of eight bytes, the requests after the load go on where those
-- before the drop ended, and a request gets null exactly where its block would begin past the end
-- of the file.
pub journal-blocks :
    (fd addr fd' addr' total n a m b : ℕ) (f : File)
    → 24 + n * slot a + m * slot b + a + b + 8 ≤ 2 ^ 64
    → journal (working fd addr) (working fd' addr') total (n, a) (m, b) f ≡ (
      done (blocks addr total 24 a n, blocks addr' total (24 + n * slot a) b m),
      record f {
        header = header_at total (24 + n * slot a + m * slot b);
        size = total;
        is_open = false;
        is_mapped = false;
      },
    )
unfolding journal new load drop round_up
journal-blocks fd addr fd' addr' total n a m b f fits =
    let r : MappedRegion = record { addr = addr; total_size = total; fd = fd; count = 0 } in
    let made : File = record f {
      header = header_at total 24;
      size = total;
      is_open = true;
      is_mapped = true;
    } in
    let (t, e) = allocations-blocks n a r made (omega arith) refl (omega arith) in
    let r' : MappedRegion = record { addr = addr'; total_size = total; fd = fd'; count = 0 } in
    let used : File = record made { header = header_at total (24 + n * slot a) } in
    let (t', e') = allocations-blocks m b r' used (omega arith) (omega arith) (omega arith) in
    rw (e, e') refl
