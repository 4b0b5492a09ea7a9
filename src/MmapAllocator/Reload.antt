-- ===== src/MmapAllocator/Reload.antt =====
-- What `new` leaves for `load`, and where the two go wrong.
use rx_rust.Base.{ℕ, ◌≡◌, ◌≢◌, ◌↔◌, true, some, arith}
use rx_rust.Effect.{done, ok, err, Action, pure, ◌>>=◌, ◌>>◌}
use rx_rust.MmapAllocator.{MMapHeader, magic_number}
use rx_rust.MmapAllocator.Files.{File, System, new, load, drop}

-- A system on which every call succeeds.
abbrev pub working : ℕ → ℕ → System
working fd addr = record {
  descriptor = some fd;
  ftruncate = true;
  fstat = true;
  mmap = some addr;
  madvise = true;
  munmap = true;
  close = true;
  msync = true;
}

-- The header of a region of this size with the cursor at this place.
abbrev pub header_at : ℕ → ℕ → MMapHeader
header_at total_size cursor = record {
  magic = magic_number;
  current = cursor;
  total_size = total_size;
}

-- The allocations in between, as far as the file is concerned: the cursor moves.
abbrev pub move_cursor : ℕ → Action File (Unit {0})
move_cursor cursor f = pure tt (record f { header = record f.header { current = cursor } })

module _ (fd addr fd' addr' total_size cursor : ℕ) (f : File) where
  -- Where the system calls succeed, a region that is created, used until its cursor stands at some
  -- place, dropped and loaded again has its size, its cursor and a count of 0, and its file is open
  -- and mapped.
  pub load-new :
      (do
        _ ← new (working fd addr) total_size
        move_cursor cursor
        drop (working fd addr)
        load (working fd' addr'))
        f
      ≡ (
        done (ok (record { addr = addr'; total_size = total_size; fd = fd'; count = 0 })),
        record f {
          header = header_at total_size cursor;
          size = total_size;
          is_open = true;
          is_mapped = true;
        },
      )
  unfolding new load drop
  load-new = ground arith

-- Where the system calls succeed, `load` refuses a file exactly when both its magic number and its
-- size are wrong: one of the two may be wrong, and the file is loaded.
pub load_refuses_iff :
    (fd addr : ℕ) (f : File)
    → ((load (working fd addr) f).0 ≡ done (err tt))
      ↔ ((f.header.magic ≢ magic_number) × (f.header.total_size ≢ f.size))
unfolding load
load_refuses_iff fd addr f = (λ e. (λ m. ground arith, λ n. ground arith), λ h. ground arith)
