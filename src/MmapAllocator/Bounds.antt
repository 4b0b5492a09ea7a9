-- ===== src/MmapAllocator/Bounds.antt =====
-- What an undisturbed call of the allocator returns, and where its block lies.
use rx_rust.Base.{ℕ, ◌+◌, ◌%◌, ◌^◌, ◌≡◌, ◌≢◌, none, some, arith, ltb, if◌then◌else◌}
use rx_rust.Effect.{done, panicked}
use rx_rust.MmapAllocator.{MappedRegion, MMapHeader, next_slot}
use rx_rust.MmapAllocator.Arena.{returned, allocate}

module _ (r : MappedRegion) (h : MMapHeader) (size : ℕ) where
  -- The loop ends in its first round. The cursor moves to the next slot in every case; the answer
  -- is a pointer to the old cursor, and counted, where the block begins within the file or at its
  -- end, and null, not counted, where it begins further on. Any alignment but eight ends in a
  -- panic.
  pub allocate_lem :
      (allocate r h size 8 ≡ (
        if ltb r.total_size h.current
        then done (record {
          call = returned size h.current none;
          cursor = next_slot h.current size;
          tally = r.count;
        })
        else done (record {
          call = returned size h.current (some ((r.addr + h.current) % 2 ^ 64));
          cursor = next_slot h.current size;
          tally = (r.count + 1) % 2 ^ 64;
        })))
      × ((align : ℕ) → align ≢ 8 → allocate r h size align ≡ panicked)
  unfolding allocate
  allocate_lem = (ground arith, λ align ne. ground arith)
