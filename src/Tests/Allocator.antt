-- ===== src/Tests/Allocator.antt =====
-- The allocator at concrete inputs: two calls whose operations interleave, and files.
use mathlib.Core.List.Perm
use mathlib.Core.Quot
use rx_rust.Base.{
  ◌+◌, ◌%◌, ◌^◌, ◌≤◌, ◌≡◌, ◌≢◌, ◌↔◌, refl, false, none, some, List, [], ◌∷◌, ◌++◌, ◌*◌, length,
  arith,
}
use rx_rust.Effect.{done, panicked, ok, err}
use rx_rust.MmapAllocator.{MappedRegion, magic_number, next_slot, round_up}
use rx_rust.MmapAllocator.Progress.{Busy, history_ends}
use rx_rust.MmapAllocator.Arena.{
  ready, returned, Arena, swap_cursor, finish_call, advance, settle, move_call, Event, enters,
  moves, step, history, num_allocated,
}
use rx_rust.MmapAllocator.Disjoint.{IsSafe, history-IsSafe}
use rx_rust.MmapAllocator.Counted.{pointers, history-num_allocated}
use rx_rust.MmapAllocator.Files.{File, new, load}
use rx_rust.MmapAllocator.Tiling.{AllReturned, asked, space, history-agree}
use rx_rust.MmapAllocator.Journal.{test_object_size, journal, boundaries}
use rx_rust.MmapAllocator.Journal.Boundaries.{boundaries-passes}
use rx_rust.MmapAllocator.Journal.Blocks.{blocks, journal-blocks}
use rx_rust.MmapAllocator.Reload.{working, header_at, load_refuses_iff}

-- A region of 1024 bytes that was just created.
abbrev region : MappedRegion
region = record { addr = 4096; total_size = 1024; fd = 3; count = 0 }

abbrev arena : Arena
arena = record { region = region; header = header_at 1024 24; calls = [] }

-- Two calls load the same cursor; the second one claims it, and the first has to begin again.
abbrev race : List Event
race =
    enters 100
    ∷ enters 50
    ∷ moves 0
    ∷ moves 1
    ∷ moves 1
    ∷ moves 0
    ∷ moves 0
    ∷ moves 0
    ∷ moves 1
    ∷ moves 0
    ∷ []

race_lem :
    (history race arena).calls ≡ returned 50 128 (some 4224) ∷ returned 100 24 (some 4120) ∷ []
unfolding history step move_call settle advance swap_cursor finish_call next_slot round_up
race_lem = refl

history-IsSafe_example : IsSafe (history race arena)
unfolding history step move_call settle advance swap_cursor finish_call next_slot round_up
history-IsSafe_example =
    history-IsSafe race arena (omega arith, (omega arith, tt))
      (record { behind_header = omega arith; aligned = refl; placed = tt; apart = tt })

history-num_allocated_example :
    num_allocated (history race arena).region ≡ pointers (history race arena).calls % 2 ^ 64
unfolding num_allocated
history-num_allocated_example = history-num_allocated race arena refl

-- A file that holds nothing of use.
abbrev fresh : File
fresh = record {
  header = record { magic = 0; current = 0; total_size = 0 };
  size = 7;
  is_open = false;
  is_mapped = false;
}

fresh_refused :
    ((load (working 3 4096) fresh).0 ≡ done (err tt))
    ↔ ((fresh.header.magic ≢ magic_number) × (fresh.header.total_size ≢ fresh.size))
fresh_refused = load_refuses_iff 3 4096 fresh

-- Its magic number is wrong, and it is loaded.
abbrev foreign : File
foreign = record fresh { size = 0 }

foreign_lem :
    (load (working 3 4096) foreign).0
    ≡ done (ok (record { addr = 4096; total_size = 0; fd = 3; count = 0 }))
unfolding load
foreign_lem = refl

-- Its advice fails, and `new` writes through the pointer to the mapping that is gone.
new_faults : (new (record (working 3 4096) { madvise = false }) 1024 foreign).0 ≡ panicked
unfolding new
new_faults = refl

-- Its size cannot be found out.
load_panics : (load (record (working 3 4096) { fstat = false }) foreign).0 ≡ panicked
unfolding load
load_panics = refl

-- The operations of a race, from where the two calls have entered.
abbrev contended : Arena
contended = record arena { calls = ready 50 ∷ ready 100 ∷ [] }

abbrev moved : List Event
moved = moves 0 ∷ moves 1 ∷ moves 1 ∷ moves 0 ∷ moves 0 ∷ moves 0 ∷ moves 1 ∷ moves 0 ∷ []

moved-Busy : Busy moved contended
unfolding step move_call settle advance swap_cursor finish_call next_slot round_up
moved-Busy = (tt, (tt, (tt, (tt, (tt, (tt, (tt, (tt, tt))))))))

history_ends_example : length moved ≤ length contended.calls * (2 * length contended.calls + 4)
history_ends_example = history_ends moved contended moved-Busy

-- The test `mmap_allocator_boundaries`: 21 objects of 48 bytes, one more, and one more after the
-- load.
journal-blocks_example : journal (working 3 4096) (working 4 8192) 1024 (22, 48) (1, 48) fresh ≡ (
  done (blocks 4096 1024 24 48 21 ++ none ∷ [], none ∷ []),
  record fresh { header = header_at 1024 1128; size = 1024 },
)
journal-blocks_example = journal-blocks 3 4096 4 8192 1024 22 48 1 48 fresh (omega arith)

-- The test with its numbers: 1024 is 21 * 48 + 16.
boundaries-passes_example :
    (boundaries (working 3 4096) (working 4 8192) 1024 test_object_size fresh).0 ≡ done tt
boundaries-passes_example =
    boundaries-passes 3 4096 4 8192 1024 test_object_size fresh refl (omega arith) (omega arith)
      (omega arith) (omega arith)

-- The same requests, one after the other.
abbrev in_turn : List Event
in_turn = enters 50 ∷ moves 0 ∷ moves 0 ∷ moves 0 ∷ enters 100 ∷ moves 0 ∷ moves 0 ∷ moves 0 ∷ []

in_turn-AllReturned : AllReturned (history in_turn arena).calls
unfolding history step move_call settle advance swap_cursor finish_call next_slot round_up
in_turn-AllReturned = tt

race-AllReturned : AllReturned (history race arena).calls
unfolding history step move_call settle advance swap_cursor finish_call next_slot round_up
race-AllReturned = tt

same_bag : asked race ≡ asked in_turn
same_bag = Quot.sound (Perm.swap 50 100 [])

fits_in : 24 + space (asked race) + 8 ≤ 2 ^ 64
unfolding space
fits_in = omega arith

history-agree_example :
    ((history race arena).header.current ≡ (history in_turn arena).header.current)
    × ((history race arena).header.current ≡ 24 + space (asked race))
history-agree_example =
    history-agree arena refl (omega arith) refl race in_turn same_bag race-AllReturned
      in_turn-AllReturned fits_in
