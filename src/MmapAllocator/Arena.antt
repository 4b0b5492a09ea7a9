-- ===== src/MmapAllocator/Arena.antt =====
-- src/mmap_allocator.rs, `allocate` and `num_allocated`: any number of calls on one region, from
-- any threads, whose atomic operations interleave in any order.
use rx_rust.Base.{
  ℕ, zero, suc, ◌+◌, ◌%◌, Option, none, some, List, [], ◌∷◌, ltb, if◌then◌else◌, ◌==◌,
}
use rx_rust.Effect.{Outcome, done, panicked}
use rx_rust.MmapAllocator.{word, align_size, MMapHeader, MappedRegion, next_slot}

-- How far a call has come: before the load of the cursor, between the load and the
-- compare-and-swap, behind the compare-and-swap that succeeded, and returned, with a pointer or
-- null.
pub data Call : Type 0 where
  ready : ℕ → Call
  loaded : ℕ → ℕ → Call
  claimed : ℕ → ℕ → Call
  returned : ℕ → ℕ → Option ℕ → Call

pub record Arena : Type 0 where
  pub region : MappedRegion
  pub header : MMapHeader
  pub calls : List Call

-- The next atomic operation of a call, on the cursor and the count.
pub record Moved : Type 0 where
  pub call : Call
  pub cursor : ℕ
  pub tally : ℕ

-- `header.current.load`
abbrev pub load_cursor : ℕ → ℕ → ℕ → Moved
load_cursor size cursor tally = record { call = loaded size cursor; cursor = cursor; tally = tally }

-- `compare_and_swap`, and the test that ends the loop or begins it again.
unfoldable pub swap_cursor : ℕ → ℕ → ℕ → ℕ → Moved
swap_cursor size offset cursor tally =
    if cursor == offset
    then record { call = claimed size offset; cursor = next_slot offset size; tally = tally }
    else record { call = ready size; cursor = cursor; tally = tally }

-- What stands behind the loop: null past the end of the file, else a pointer, and the count goes
-- up.
unfoldable pub finish_call : MappedRegion → ℕ → ℕ → ℕ → ℕ → Moved
finish_call r size offset cursor tally =
    if ltb r.total_size offset
    then record { call = returned size offset none; cursor = cursor; tally = tally }
    else record {
      call = returned size offset (some ((r.addr + offset) % word));
      cursor = cursor;
      tally = (tally + 1) % word;
    }

unfoldable pub advance : MappedRegion → Call → ℕ → ℕ → Moved
advance r (ready size) cursor tally = load_cursor size cursor tally
advance r (loaded size offset) cursor tally = swap_cursor size offset cursor tally
advance r (claimed size offset) cursor tally = finish_call r size offset cursor tally
advance r (returned size offset p) cursor tally = record {
  call = returned size offset p;
  cursor = cursor;
  tally = tally;
}

-- A call enters, or the call at a place in the list makes its next operation.
pub data Event : Type 0 where
  enters : ℕ → Event
  moves : ℕ → Event

unfoldable pub settle : Arena → Moved → List Call → Arena
settle a m calls = record {
  region = record a.region { count = m.tally };
  header = record a.header { current = m.cursor };
  calls = calls;
}

-- The call at a place, and the list with that call replaced.
abbrev pub call_at : List Call → ℕ → Option Call
call_at [] i = none
call_at (c ∷ cs) zero = some c
call_at (c ∷ cs) (suc i) = call_at cs i

abbrev pub replace : List Call → ℕ → Call → List Call
replace [] i c = []
replace (x ∷ cs) zero c = c ∷ cs
replace (x ∷ cs) (suc i) c = x ∷ replace cs i c

unfoldable pub move_call : Arena → ℕ → Option Call → Arena
unfolding settle
move_call a i none = a
move_call a i (some c) =
    let m = advance a.region c a.header.current a.region.count in
    settle a m (replace a.calls i m.call)

unfoldable pub step : Event → Arena → Arena
unfolding move_call
step (enters size) a = record a { calls = ready size ∷ a.calls }
step (moves i) a = move_call a i (call_at a.calls i)

unfoldable pub history : List Event → Arena → Arena
history [] a = a
history (e ∷ es) a = history es (step e a)

-- `num_allocated`
unfoldable pub num_allocated : MappedRegion → ℕ
num_allocated r = r.count

-- A call that makes its operations with no other call between them.
unfoldable pub alone : ℕ → MappedRegion → Moved → Moved
alone zero r m = m
alone (suc n) r m = alone n r (advance r m.call m.cursor m.tally)

-- `allocate`, undisturbed: the test of the alignment, and three operations.
unfoldable pub allocate : MappedRegion → MMapHeader → ℕ → ℕ → Outcome Moved
unfolding alone advance swap_cursor finish_call
allocate r h size align =
    if align == align_size
    then done (alone 3 r (record { call = ready size; cursor = h.current; tally = r.count }))
    else panicked
