-- ===== src/MmapAllocator/Tiling.antt =====
-- The space that the calls of the allocator take together, whatever their order.
use mathlib.Core.List.{foldr, Perm}
use mathlib.Core.List.Perm
use mathlib.Core.Quot
use mathlib.Core.Quot.{Quot}
use native.Mathlib.Nat.{ℕ_set}
use rx_rust.Base.{
  ℕ, zero, suc, ◌+◌, ◌%◌, ◌^◌, ◌≤◌, ◌≡◌, refl, ap, inl, inr, some, Option-cases, List, [], ◌∷◌,
  arith, ltb, ◌==◌, Bool-cases,
}
use rx_rust.MmapAllocator.{MappedRegion}
use rx_rust.MmapAllocator.Round.{slot, next_slot-slot}
use rx_rust.MmapAllocator.Arena.{
  Call, ready, loaded, claimed, returned, Arena, swap_cursor, finish_call, advance, Event, enters,
  moves, call_at, move_call, step, history,
}
use rx_rust.MmapAllocator.Totals.{total, total-replace}

-- What a call has still to claim.
abbrev pub pending : Call → ℕ
pending (ready n) = slot n
pending (loaded n o) = slot n
pending (claimed n o) = 0
pending (returned n o p) = 0

-- The requests of the calls that enter.
abbrev pub requests : List Event → List ℕ
requests [] = []
requests (enters n ∷ es) = n ∷ requests es
requests (moves i ∷ es) = requests es

abbrev pub slots : List ℕ → ℕ
slots = foldr (λ n k. slot n + k) 0

-- Requests as a bag, which forgets their order, and the space that they take.
abbrev pub Bag : Type 0
Bag = Quot (Perm {A = ℕ})

abbrev pub asked : List Event → Bag
asked es = Quot.mk (requests es)

unfoldable pub space : Bag → ℕ
space = Quot.lift ℕ_set slots (λ xs ys p.
    Perm.foldr-eq ℕ_set (λ n k. slot n + k) (λ m n k. omega arith) {l₁ = xs} {l₂ = ys} p 0)

-- What the cursor and the calls amount to.
abbrev pub reach : Arena → ℕ
reach a = a.header.current + total pending a.calls

module _ (r : MappedRegion) (cursor tally : ℕ) (low : 1 ≤ cursor) (aligned : cursor % 8 ≡ 0) where
  advance-pending :
      (c : Call)
      → cursor + pending c + 8 ≤ 2 ^ 64
      → let m = advance r c cursor tally in
        (m.cursor + pending m.call ≡ cursor + pending c) × (cursor ≤ m.cursor) × (m.cursor % 8 ≡ 0)
  unfolding advance swap_cursor finish_call
  advance-pending (ready n) fits = (refl, omega arith, aligned)
  advance-pending (loaded n o) fits = elim (Bool-cases (cursor == o)) [
    | inl hit ↦
        let same : o ≡ cursor = ground arith in
        let next = next_slot-slot cursor n low aligned (omega arith) in
        rw (hit, swap_cursor, same, next) (omega arith, omega arith, omega arith)
    | inr miss ↦ rw (miss, swap_cursor) (refl, omega arith, aligned)
  ]
  advance-pending (claimed n o) fits = elim (Bool-cases (ltb r.total_size o)) [
    | inl past ↦ rw (past, finish_call) (refl, omega arith, aligned)
    | inr within ↦ rw (within, finish_call) (refl, omega arith, aligned)
  ]
  advance-pending (returned n o p) fits = (refl, omega arith, aligned)

-- A place is one of the summands.
total-at :
    (f : Call → ℕ) (cs : List Call) (i : ℕ) (c : Call) → call_at cs i ≡ some c → f c ≤ total f cs
total-at f [] i c e = absurd (cc)
total-at f (x ∷ cs) zero c e = let same : x ≡ c = cc in rw same (omega arith)
total-at f (x ∷ cs) (suc i) c e = omega (arith, total-at f cs i c e)

step-reach :
    (i : ℕ) (a : Arena)
    → 1 ≤ a.header.current
    → a.header.current % 8 ≡ 0
    → reach a + 8 ≤ 2 ^ 64
    → let b = step (moves i) a in
      (reach b ≡ reach a) × (1 ≤ b.header.current) × (b.header.current % 8 ≡ 0)
unfolding step
step-reach i a low aligned fits = elim (Option-cases (call_at a.calls i)) [
  | inl e ↦ rw (e, move_call) (refl, low, aligned)
  | inr (c, e) ↦
      let m = advance a.region c a.header.current a.region.count in
      let (kept, forward, even) =
        advance-pending a.region a.header.current a.region.count low aligned c
          (omega (arith, fits, total-at pending a.calls i c e)) in
      let sums = total-replace pending a.calls i c m.call e in
      rw (e, move_call) (omega (arith, kept, sums), omega (arith, forward), even)
]

history-reach :
    (es : List Event) (a : Arena)
    → 1 ≤ a.header.current
    → a.header.current % 8 ≡ 0
    → reach a + slots (requests es) + 8 ≤ 2 ^ 64
    → reach (history es a) ≡ reach a + slots (requests es)
unfolding history step
history-reach [] a low aligned fits = omega arith
history-reach (enters n ∷ es) a low aligned fits =
    omega (arith, history-reach es (step (enters n) a) low aligned (omega arith))
history-reach (moves i ∷ es) a low aligned fits =
    let (same, low', aligned') = step-reach i a low aligned (omega arith) in
    omega
      (arith, same, history-reach es (step (moves i) a) low' aligned' (omega (arith, fits, same)))

-- All calls have returned.
abbrev pub AllReturned : List Call → Type 0
AllReturned [] = Unit
AllReturned (ready n ∷ cs) = ⊥
AllReturned (loaded n o ∷ cs) = ⊥
AllReturned (claimed n o ∷ cs) = ⊥
AllReturned (returned n o p ∷ cs) = AllReturned cs

AllReturned-pending : (cs : List Call) → AllReturned cs → total pending cs ≡ 0
AllReturned-pending [] h = refl
AllReturned-pending (ready n ∷ cs) h = absurd h
AllReturned-pending (loaded n o ∷ cs) h = absurd h
AllReturned-pending (claimed n o ∷ cs) h = absurd h
AllReturned-pending (returned n o p ∷ cs) h = omega (arith, AllReturned-pending cs h)

module _ (a : Arena) (idle : a.calls ≡ []) (low : 1 ≤ a.header.current)
    (aligned : a.header.current % 8 ≡ 0) where
  pub history-space :
      (es : List Event)
      → AllReturned (history es a).calls
      → a.header.current + space (asked es) + 8 ≤ 2 ^ 64
      → (history es a).header.current ≡ a.header.current + space (asked es)
  unfolding space
  history-space es done fits =
      let none_there : total pending a.calls ≡ 0 = rw idle refl in
      let none_left = AllReturned-pending (history es a).calls done in
      omega (
        arith,
        none_there,
        none_left,
        history-reach es a low aligned (omega (arith, none_there, fits)),
      )

  -- Two schedules that begin at a region where no call is under way, whose cursor is aligned, and
  -- that end when all calls have returned, leave the cursor at the same place if they serve the
  -- same requests, whatever their order and however the operations interleave: the cursor moves by
  -- the multiples of eight that the requests take, and no byte is lost to a call that had to begin
  -- again. The requests do not reach the end of the address space.
  pub history-agree :
      (es es' : List Event)
      → asked es ≡ asked es'
      → AllReturned (history es a).calls
      → AllReturned (history es' a).calls
      → a.header.current + space (asked es) + 8 ≤ 2 ^ 64
      → ((history es a).header.current ≡ (history es' a).header.current)
        × ((history es a).header.current ≡ a.header.current + space (asked es))
  history-agree es es' same done done' fits =
      let equal : space (asked es) ≡ space (asked es') = ap space same in
      let here = history-space es done fits in
      let there = history-space es' done' (omega (arith, fits, equal)) in
      (omega (arith, here, there, equal), here)
