-- ===== src/MmapAllocator/Files.antt =====
-- src/mmap_allocator.rs, `new`, `load` and `drop`: the file behind a region. What the system calls
-- answer is a parameter; what they do to the one file is written out.
use rx_rust.Base.{ℕ, Bool, true, false, ◌&&◌, Option, none, some, not, ◌==◌, if◌then◌else◌}
use rx_rust.Effect.{Result, ok, err, Action, pure, panic, ◌>>=◌, ◌>>◌}
use rx_rust.MmapAllocator.{MMapHeader, MappedRegion, magic_number, header_size, round_up}

-- The file: its header and size, and whether it is open and mapped.
pub record File : Type 0 where
  pub header : MMapHeader
  pub size : ℕ
  pub is_open : Bool
  pub is_mapped : Bool

-- The answers of the system: a descriptor, an address, or whether the call succeeds.
pub record System : Type 0 where
  pub descriptor : Option ℕ
  pub ftruncate : Bool
  pub fstat : Bool
  pub mmap : Option ℕ
  pub madvise : Bool
  pub munmap : Bool
  pub close : Bool
  pub msync : Bool

-- `unwrap` of an answer that carries a number, and what the call has done to the file.
abbrev unwrap : (File → File) → Option ℕ → Action File ℕ
unwrap act none f = panic f
unwrap act (some n) f = pure n (act f)

module _ (sys : System) where
  -- `fcntl::open(…).unwrap()`
  open_file : Action File ℕ
  open_file = unwrap (λ f. record f { is_open = true }) sys.descriptor

  -- `unistd::ftruncate(…).unwrap()`
  truncate : ℕ → Action File (Unit {0})
  truncate size f = if sys.ftruncate then pure tt (record f { size = size }) else panic f

  -- `stat::fstat(…).unwrap()`, for the size that the file has.
  stat_file : Action File ℕ
  stat_file f = if sys.fstat then pure f.size f else panic f

  -- `mman::mmap(…).unwrap()`
  map_file : Action File ℕ
  map_file = unwrap (λ f. record f { is_mapped = true }) sys.mmap

  -- `mman::munmap(…).unwrap()` and `unistd::close(…).unwrap()`
  unmap_file : Action File (Unit {0})
  unmap_file f = if sys.munmap then pure tt (record f { is_mapped = false }) else panic f

  close_file : Action File (Unit {0})
  close_file f = if sys.close then pure tt (record f { is_open = false }) else panic f

  -- The match on `madvise`: its error is logged, and the file is unmapped and closed.
  advise : Action File (Unit {0})
  unfolding unmap_file close_file
  advise = if sys.madvise then pure tt else (do unmap_file; close_file)

  -- A write through the pointer to the header. Where the mapping is gone, it is a fault, which ends
  -- the process: there is no result, as after a panic.
  write_header : MMapHeader → Action File (Unit {0})
  write_header h f = if f.is_mapped then pure tt (record f { header = h }) else panic f

  -- `MappedRegion::new`
  unfoldable pub new : ℕ → Action File (Result MappedRegion (Unit {0}))
  unfolding open_file truncate map_file unmap_file close_file advise write_header
  new total_size = do
    fd ← open_file
    truncate total_size
    p ← map_file
    advise
    write_header
        (record { magic = magic_number; current = round_up header_size; total_size = total_size })
    pure (ok (record { addr = p; total_size = total_size; fd = fd; count = 0 }))

  -- The header's magic number and its size are compared with the file's: both have to differ.
  abbrev is_rejected : MMapHeader → ℕ → Bool
  is_rejected h size = not (h.magic == magic_number) && not (h.total_size == size)

  -- The sanity check, and what follows it.
  check : ℕ → ℕ → ℕ → Action File (Result MappedRegion (Unit {0}))
  unfolding unmap_file close_file
  check fd size p f =
      if is_rejected f.header size
      then (do unmap_file; close_file; pure (err tt)) f
      else pure (ok (record { addr = p; total_size = f.header.total_size; fd = fd; count = 0 })) f

  -- `MappedRegion::load`
  unfoldable pub load : Action File (Result MappedRegion (Unit {0}))
  unfolding open_file stat_file map_file check
  load = do fd ← open_file; size ← stat_file; p ← map_file; check fd size p

  -- `drop`: the three calls, whatever they answer.
  unfoldable pub drop : Action File (Unit {0})
  drop f = pure tt (record f {
    is_mapped = if sys.munmap then false else f.is_mapped;
    is_open = if sys.close then false else f.is_open;
  })
