-- ===== src/MmapAllocator/Journal.antt =====
-- The tests `mmap_allocator_basic` and `mmap_allocator_boundaries` in src/mmap_allocator.rs: a
-- region is made, used and dropped, and the file is loaded and used again. The objects that the
-- first test writes into the blocks are left out.
pub mod Blocks
pub mod Boundaries
use rx_rust.Base.{
  ℕ, zero, suc, ◌/◌, Bool, true, false, not, ◌==◌, Option, none, some, List, [], ◌∷◌,
}
use rx_rust.Effect.{
  Outcome, done, panicked, out_of_fuel, Result, ok, err, Action, pure, panic, ◌>>=◌, ◌>>◌,
}
use rx_rust.MmapAllocator.{MappedRegion, align_size}
use rx_rust.MmapAllocator.Arena.{Call, ready, loaded, claimed, returned, Moved, allocate}
use rx_rust.MmapAllocator.Files.{File, System, new, load, drop}

-- `mem::size_of::<TestObject>()`: five words and three bytes, rounded to a word.
abbrev pub test_object_size : ℕ
test_object_size = 48

-- What a call returned.
abbrev pub pointer : Call → Option ℕ
pointer (ready size) = none
pointer (loaded size offset) = none
pointer (claimed size offset) = none
pointer (returned size offset p) = p

-- The cursor is in the file, and the count in the region.
abbrev pub kept : MappedRegion → Outcome Moved → Action File (MappedRegion × Option ℕ)
kept r (done m) f =
    pure (record r { count = m.tally }, pointer m.call)
      (record f { header = record f.header { current = m.cursor } })
kept r panicked f = panic f
kept r out_of_fuel f = (out_of_fuel, f)

-- `region.allocate(size, 8)`
unfoldable pub allocate_in : MappedRegion → ℕ → Action File (MappedRegion × Option ℕ)
allocate_in r size f = kept r (allocate r f.header size align_size) f

-- iobuf's trait `Allocator`, for a region: a block is never given back.
unfoldable pub allocator_allocate : MappedRegion → ℕ → ℕ → Action File (MappedRegion × Option ℕ)
allocator_allocate r size align f = kept r (allocate r f.header size align) f

unfoldable pub deallocate : MappedRegion → Option ℕ → ℕ → ℕ → Action File MappedRegion
deallocate r ptr len align = pure r

-- The loop of the test.
unfoldable pub allocations : ℕ → ℕ → MappedRegion → Action File (MappedRegion × List (Option ℕ))
allocations zero size r = pure (r, [])
allocations (suc n) size r = do
  (r', p) ← allocate_in r size
  (r'', ps) ← allocations n size r'
  pure (r'', p ∷ ps)

-- `unwrap`
abbrev pub unwrap_region : Result MappedRegion (Unit {0}) → Action File MappedRegion
unwrap_region (ok r) = pure r
unwrap_region (err e) = panic

-- Both blocks of the test, with any numbers and sizes of objects.
unfoldable pub journal :
    System → System → ℕ → (ℕ × ℕ) → (ℕ × ℕ) → Action File (List (Option ℕ) × List (Option ℕ))
journal sys sys' total (n, a) (m, b) = do
  made ← new sys total
  region ← unwrap_region made
  (_, ps) ← allocations n a region
  drop sys
  held ← load sys'
  region' ← unwrap_region held
  (_, qs) ← allocations m b region'
  drop sys'
  pure (ps, qs)

-- `foo as usize`: null is the address 0.
abbrev pub address : Option ℕ → ℕ
address none = 0
address (some p) = p

-- `assert!`
abbrev pub assert : Bool → Action File (Unit {0})
assert true = pure tt
assert false = panic

-- The loop of the second test, each of whose pointers must not be null.
unfoldable pub filled : ℕ → ℕ → MappedRegion → Action File MappedRegion
filled zero size r = pure r
filled (suc n) size r = do
  (r', foo) ← allocate_in r size
  assert (not (address foo == 0))
  filled n size r'

-- A request that must fail.
unfoldable pub refused : ℕ → MappedRegion → Action File (Unit {0})
refused size r = do (_, foo) ← allocate_in r size; assert (address foo == 0)

-- The second test, with any size of the region and of the objects: as many of them as the region's
-- size is a multiple of theirs, one more, and one more after the load.
unfoldable pub boundaries : System → System → ℕ → ℕ → Action File (Unit {0})
unfolding refused
boundaries sys sys' one_k size = do
  made ← new sys one_k
  region ← unwrap_region made
  region' ← filled (one_k / size) size region
  refused size region'
  drop sys
  held ← load sys'
  region'' ← unwrap_region held
  refused size region''
  drop sys'
