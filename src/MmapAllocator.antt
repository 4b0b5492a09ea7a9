-- ===== src/MmapAllocator.antt =====
-- src/mmap_allocator.rs: an allocator that hands out the bytes of a memory-mapped file, one block
-- behind the other. The cursor stands in the header at the beginning of the file.
pub mod Round
pub mod Arena
pub mod Disjoint
pub mod Totals
pub mod Progress
pub mod Counted
pub mod Bounds
pub mod Files
pub mod Reload
pub mod Journal
pub mod Tiling
use Prim.Native.Nat.{bit_or}
use rx_rust.Base.{ℕ, ◌+◌, ◌-◌, ◌%◌, ◌^◌}

-- `usize` and `u64` are 64 bits wide.
abbrev pub word : ℕ
word = 2 ^ 64

-- `ALIGN` and `MAGIC`
abbrev pub align_size : ℕ
align_size = 8

abbrev pub magic_number : ℕ
magic_number = 0x42424242

-- `mem::size_of::<MMapHeader>()`: three fields of eight bytes.
abbrev pub header_size : ℕ
header_size = 24

pub record MMapHeader : Type 0 where
  pub magic : ℕ
  pub current : ℕ
  pub total_size : ℕ

pub record MappedRegion : Type 0 where
  pub addr : ℕ
  pub total_size : ℕ
  pub fd : ℕ
  pub count : ℕ

-- `((end - 1) | (ALIGN - 1)) + 1`, on machine words.
unfoldable pub round_up : ℕ → ℕ
round_up end_ = (bit_or ((end_ + word - 1) % word) (align_size - 1) + 1) % word

-- `newval` in `allocate`: where the next block begins.
unfoldable pub next_slot : ℕ → ℕ → ℕ
next_slot offset size = round_up ((offset + size) % word)
