-- ===== src/MmapAllocator/Journal/Boundaries.antt =====
-- When the test `mmap_allocator_boundaries` in src/mmap_allocator.rs passes.
use native.Mathlib.Nat.{mod-add-div, mul_comm}
use rx_rust.Base.{
  ap, ◌∙◌, ℕ, zero, suc, ◌+◌, ◌*◌, ◌/◌, ◌%◌, ◌^◌, ◌≤◌, ◌<◌, ◌≡◌, refl, true, false, inl, inr,
  Bool-cases, arith, ltb, if◌then◌else◌, ◌==◌,
}
use rx_rust.Effect.{done, panicked}
use rx_rust.MmapAllocator.{MappedRegion, round_up}
use rx_rust.MmapAllocator.Round.{slot}
use rx_rust.MmapAllocator.Files.{File, new, load, drop}
use rx_rust.MmapAllocator.Reload.{working, header_at}
use rx_rust.MmapAllocator.Journal.{address, filled, refused, boundaries}
use rx_rust.MmapAllocator.Journal.Blocks.{block, allocate_in_lem, suc_times}

module _ (addr total offset : ℕ) where
  address-within :
      offset ≤ total
      → 1 ≤ addr
      → addr + total < 2 ^ 64
      → address (block addr total offset) ≡ addr + offset
  address-within within h fits =
      let in_file : ltb total offset ≡ false = ground arith in
      let exact : (addr + offset) % 2 ^ 64 ≡ addr + offset = omega arith in rw (in_file, exact) refl

  address-past : total < offset → address (block addr total offset) ≡ 0
  address-past past = let behind : ltb total offset ≡ true = ground arith in rw behind refl

module _ (size : ℕ) (r : MappedRegion) (f : File) (low : 1 ≤ f.header.current)
    (aligned : f.header.current % 8 ≡ 0) (fits : f.header.current + size + 8 ≤ 2 ^ 64) where
  refused-past :
      r.total_size < f.header.current
      → refused size r f ≡ (
        done tt,
        record f { header = record f.header { current = f.header.current + slot size } },
      )
  unfolding refused
  refused-past past =
      let (t, e) = allocate_in_lem r size f low aligned fits in
      rw (e, address-past r.addr r.total_size f.header.current past) refl

  refused-within :
      f.header.current ≤ r.total_size
      → 1 ≤ r.addr
      → r.addr + r.total_size < 2 ^ 64
      → refused size r f ≡ (
        panicked,
        record f { header = record f.header { current = f.header.current + slot size } },
      )
  unfolding refused
  refused-within within h room =
      let (t, e) = allocate_in_lem r size f low aligned fits in
      let there : (r.addr + f.header.current == 0) ≡ false = ground arith in
      rw (e, address-within r.addr r.total_size f.header.current within h room, there) refl

filled_lem :
    (n size : ℕ) (r : MappedRegion) (f : File)
    → 1 ≤ f.header.current
    → f.header.current % 8 ≡ 0
    → f.header.current + n * slot size ≤ r.total_size + slot size
    → 1 ≤ r.addr
    → r.addr + r.total_size < 2 ^ 64
    → r.total_size + size + 8 ≤ 2 ^ 64
    → (t : ℕ) × (filled n size r f ≡ (
      done (record r { count = t }),
      record f { header = record f.header { current = f.header.current + n * slot size } },
    ))
unfolding filled
filled_lem zero size r f low aligned within h room fits =
    let same : f.header.current + 0 * slot size ≡ f.header.current = omega arith in
    (r.count, rw same refl)
filled_lem (suc n) size r f low aligned within h room fits =
    let more = suc_times n (slot size) in
    let (t, e) = allocate_in_lem r size f low aligned (omega (arith, within, more)) in
    let there : (r.addr + f.header.current == 0) ≡ false = ground arith in
    let f' = record f { header = record f.header { current = f.header.current + slot size } } in
    let (t', e') =
      filled_lem n size (record r { count = t }) f' (omega arith) (omega arith)
        (omega (arith, within, more)) h room fits in
    let later : f.header.current + suc n * slot size
        ≡ f.header.current + slot size + n * slot size =
      omega (arith, more) in
    (
      t',
      rw
          (
            e,
            address-within r.addr r.total_size f.header.current (omega (arith, within, more)) h
                room,
            there,
            e',
            later,
          )
          refl,
    )

module _ (fd addr fd' addr' total size : ℕ) (f : File) (exact : size % 8 ≡ 0) (big : 24 ≤ size)
    (somewhere : 1 ≤ addr) (room : addr + total < 2 ^ 64)
    (fits : total + size + size + 32 ≤ 2 ^ 64) where
  -- Where the system calls succeed, the region is mapped at an address that is not null, nothing
  -- comes near the end of the address space, and the size of the objects is a multiple of eight and
  -- at least that of the header, the test, which asks for as many objects as the region has room
  -- for without its header, ends without a panic exactly if these leave fewer bytes of the region
  -- than the header takes; else it panics.
  pub boundaries-passes :
      (boundaries (working fd addr) (working fd' addr') total size f).0
      ≡ (if ltb (total % size) 24 then done tt else panicked)
  unfolding boundaries new load drop round_up
  boundaries-passes =
      let n = total / size in
      let parts = mod-add-div total size in
      let whole : slot size ≡ size = omega arith in
      let counted : total % size + n * slot size ≡ total =
        let swap = ap (λ (k : ℕ). n * k) whole ∙ mul_comm n size in omega (arith, parts, swap) in
      let taken : n * slot size ≤ total = omega (arith, counted) in
      let r : MappedRegion = record { addr = addr; total_size = total; fd = fd; count = 0 } in
      let made : File = record f {
        header = header_at total 24;
        size = total;
        is_open = true;
        is_mapped = true;
      } in
      let (t, e) =
        filled_lem n size r made (omega arith) refl (omega (arith, taken, whole)) somewhere room
          (omega arith) in
      let r' = record r { count = t } in
      let used : File = record made { header = header_at total (24 + n * slot size) } in
      elim (Bool-cases (ltb (total % size) 24)) [
        | inl less ↦
            let past : total < 24 + n * slot size = ground (arith, counted) in
            let first =
              refused-past size r' used (omega arith) (omega arith) (omega (arith, taken)) past in
            let used' : File = record made {
              header = header_at total (24 + n * slot size + slot size);
            } in
            let again : MappedRegion = record {
              addr = addr';
              total_size = total;
              fd = fd';
              count = 0;
            } in
            let second =
              refused-past size again used' (omega arith) (omega arith)
                (omega (arith, taken, whole)) (omega (arith, past)) in
            rw (less, e, first, second) refl
        | inr left ↦
            let within : 24 + n * slot size ≤ total = ground (arith, counted) in
            let first =
              refused-within size r' used (omega arith) (omega arith) (omega (arith, within)) within
                somewhere room in
            rw (left, e, first) refl
      ]
