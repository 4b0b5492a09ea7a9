-- ===== src/MmapAllocator/Progress.antt =====
-- Calls of the allocator that disturb each other come to an end all the same.
use rx_rust.Base.{
  ℕ, ◌+◌, ◌*◌, ◌%◌, ◌≤◌, ◌<◌, ◌≡◌, inl, inr, Option, none, some, Option-cases, List, [], ◌∷◌,
  length, arith, ltb, ◌==◌, if◌then◌else◌, Bool-cases,
}
use rx_rust.MmapAllocator.{MappedRegion, word, next_slot}
use rx_rust.MmapAllocator.Arena.{
  Call, ready, loaded, claimed, returned, Arena, swap_cursor, finish_call, advance, Event, enters,
  moves, call_at, replace, move_call, step,
}
use rx_rust.MmapAllocator.Totals.{total, total-replace, length-replace, total_mono, total_bounded}

-- A call that is there and has not returned.
abbrev pub Pending : Option Call → Type 0
Pending none = ⊥
Pending (some (ready n)) = Unit
Pending (some (loaded n o)) = Unit
Pending (some (claimed n o)) = Unit
Pending (some (returned n o p)) = ⊥

-- A schedule of the calls that are there: each event is an operation of a call that has not
-- returned.
abbrev pub Busy : List Event → Arena → Type 0
Busy [] a = Unit
Busy (enters n ∷ es) a = ⊥
Busy (moves i ∷ es) a = Pending (call_at a.calls i) × Busy es (step (moves i) a)

-- What a call may still cost, where `n` calls are there: one that has loaded a stale cursor has to
-- begin again, and a claim may make the cursor stale for all others.
abbrev cost : ℕ → ℕ → Call → ℕ
cost n cursor (ready size) = 2 * n + 3
cost n cursor (loaded size o) = 2 * n + (if cursor == o then 2 else 4)
cost n cursor (claimed size o) = 1
cost n cursor (returned size o p) = 0

cost_bounded : (n cursor : ℕ) (c : Call) → cost n cursor c ≤ 2 * n + 4
cost_bounded n cursor (ready size) = omega arith
cost_bounded n cursor (loaded size o) = ground arith
cost_bounded n cursor (claimed size o) = omega arith
cost_bounded n cursor (returned size o p) = omega arith

-- Another cursor.
cost_moved : (n cursor cursor' : ℕ) (c : Call) → cost n cursor' c ≤ cost n cursor c + 2
cost_moved n cursor cursor' (ready size) = omega arith
cost_moved n cursor cursor' (loaded size o) = ground arith
cost_moved n cursor cursor' (claimed size o) = omega arith
cost_moved n cursor cursor' (returned size o p) = omega arith

module _ (r : MappedRegion) (calls : List Call) (i cursor tally : ℕ) where
  advance_cheaper :
      (c : Call)
      → call_at calls i ≡ some c
      → Pending (some c)
      → let m = advance r c cursor tally in
        total (cost (length calls) m.cursor) (replace calls i m.call)
        < total (cost (length calls) cursor) calls
  unfolding advance swap_cursor finish_call
  advance_cheaper (ready n) at_i p =
      let e = total-replace (cost (length calls) cursor) calls i (ready n) (loaded n cursor) at_i in
      ground (arith, e)
  advance_cheaper (loaded n o) at_i p = elim (Bool-cases (cursor == o)) [
    | inl hit ↦
        let f = cost (length calls) (next_slot o n) in
        let e = total-replace f calls i (loaded n o) (claimed n o) at_i in
        let others =
          total_mono f (cost (length calls) cursor) 2 calls
            (cost_moved (length calls) cursor (next_slot o n)) in
        rw (hit, swap_cursor) (ground (arith, e, others))
    | inr miss ↦
        let e = total-replace (cost (length calls) cursor) calls i (loaded n o) (ready n) at_i in
        rw (miss, swap_cursor) (ground (arith, e))
  ]
  advance_cheaper (claimed n o) at_i p = elim (Bool-cases (ltb r.total_size o)) [
    | inl past ↦
        let e =
          total-replace (cost (length calls) cursor) calls i (claimed n o) (returned n o none)
            at_i in
        rw (past, finish_call) (omega (arith, e))
    | inr within ↦
        let e =
          total-replace (cost (length calls) cursor) calls i (claimed n o)
            (returned n o (some ((r.addr + o) % word))) at_i in
        rw (within, finish_call) (omega (arith, e))
  ]
  advance_cheaper (returned n o q) at_i p = absurd p

step_cheaper :
    (i : ℕ) (a : Arena)
    → Pending (call_at a.calls i)
    → let b = step (moves i) a in
      (length b.calls ≡ length a.calls)
      × (total (cost (length a.calls) b.header.current) b.calls
          < total (cost (length a.calls) a.header.current) a.calls)
unfolding step
step_cheaper i a p = elim (Option-cases (call_at a.calls i)) [
  | inl e ↦ absurd (rw e at p)
  | inr (c, e) ↦
      let p' : Pending (some c) = rw e at p in
      rw (e, move_call)
        (
          length-replace a.calls i _,
          advance_cheaper a.region a.calls i a.header.current a.region.count c e p',
        )
]

history_cheaper :
    (es : List Event) (a : Arena)
    → Busy es a
    → length es ≤ total (cost (length a.calls) a.header.current) a.calls
history_cheaper [] a b = omega arith
history_cheaper (enters n ∷ es) a b = absurd b
history_cheaper (moves i ∷ es) a (p, b) =
    let (same, less) = step_cheaper i a p in
    let rest = history_cheaper es (step (moves i) a) b in omega (arith, less, rw same at rest)

-- No schedule keeps calls from returning: where some number of calls are there, in whatever state,
-- at most that number times twice that number and four operations can be made, in any order, before
-- all of them have returned. The compare-and-swaps that fail are counted.
pub history_ends :
    (es : List Event) (a : Arena)
    → Busy es a
    → length es ≤ length a.calls * (2 * length a.calls + 4)
history_ends es a b = omega (
  arith,
  history_cheaper es a b,
  total_bounded (cost (length a.calls) a.header.current) (2 * length a.calls + 4) a.calls
      (cost_bounded (length a.calls) a.header.current),
)
