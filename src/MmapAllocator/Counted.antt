-- ===== src/MmapAllocator/Counted.antt =====
-- The allocator's statistics, over any interleaving of calls.
use rx_rust.Base.{
  ℕ, ◌+◌, ◌%◌, ◌^◌, ◌≡◌, inl, inr, none, some, Option-cases, List, [], ◌∷◌, arith, ◌==◌, Bool-cases,
}
use rx_rust.MmapAllocator.{MappedRegion}
use rx_rust.MmapAllocator.Totals.{total, total-replace}
use rx_rust.MmapAllocator.Arena.{
  Call, ready, loaded, claimed, returned, Arena, swap_cursor, finish_call, advance, Event, enters,
  moves, call_at, move_call, step, history, num_allocated,
}

-- One for a call that has returned a pointer.
abbrev pub points : Call → ℕ
points (ready n) = 0
points (loaded n o) = 0
points (claimed n o) = 0
points (returned n o none) = 0
points (returned n o (some p)) = 1

abbrev pub pointers : List Call → ℕ
pointers = total points

advance-tally :
    (r : MappedRegion) (c : Call) (cursor tally k j : ℕ)
    → tally ≡ k % 2 ^ 64
    → j + points c ≡ k + points (advance r c cursor tally).call
    → (advance r c cursor tally).tally ≡ j % 2 ^ 64
unfolding advance swap_cursor finish_call
advance-tally r (ready n) cursor tally k j e h = let same : j ≡ k = omega arith in rw same e
advance-tally r (loaded n o) cursor tally k j e h = elim (Bool-cases (cursor == o)) [
  | inl hit ↦ ground arith
  | inr miss ↦ ground arith
]
advance-tally r (claimed n o) cursor tally k j e h = ground arith
advance-tally r (returned n o p) cursor tally k j e h = let same : j ≡ k = omega arith in rw same e

step-count :
    (e : Event) (a : Arena)
    → a.region.count ≡ pointers a.calls % 2 ^ 64
    → (step e a).region.count ≡ pointers (step e a).calls % 2 ^ 64
unfolding step
step-count (enters n) a h = rw h (omega arith)
step-count (moves i) a h = elim (Option-cases (call_at a.calls i)) [
  | inl e ↦ rw (e, move_call) h
  | inr (c, e) ↦
      rw (e, move_call)
        (advance-tally a.region c a.header.current a.region.count (pointers a.calls) _ h (
          total-replace points a.calls i c (advance a.region c a.header.current a.region.count).call
            e))
]

-- `num_allocated` is the number of the calls that have returned a pointer, modulo 2 ^ 64, however
-- the calls interleave, if it was so at the beginning.
pub history-num_allocated :
    (es : List Event) (a : Arena)
    → num_allocated a.region ≡ pointers a.calls % 2 ^ 64
    → num_allocated (history es a).region ≡ pointers (history es a).calls % 2 ^ 64
unfolding history num_allocated
history-num_allocated [] a h = h
history-num_allocated (e ∷ es) a h = history-num_allocated es (step e a) (step-count e a h)
