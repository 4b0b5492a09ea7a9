-- ===== src/MmapAllocator/Disjoint.antt =====
-- The blocks that concurrent calls of the allocator are given do not overlap.
mod Lists
use rx_rust.Base.{
  ℕ, zero, suc, ◌+◌, ◌%◌, ◌^◌, ◌≤◌, ◌<◌, ◌≡◌, refl, subst, ◌↔◌, ltb, ◌⊎◌, inl, inr, Bool, true,
  false, Bool-cases, Option, none, some, Option-cases, List, [], ◌∷◌, All, arith, ◌==◌,
  if◌then◌else◌,
}
use rx_rust.MmapAllocator.{MMapHeader, MappedRegion, next_slot}
use rx_rust.MmapAllocator.Round.{next_slot_lem}
use rx_rust.MmapAllocator.Arena.{
  Call, ready, loaded, claimed, returned, Arena, Moved, swap_cursor, finish_call, advance, Event,
  enters, moves, call_at, replace, move_call, step, history,
}
use Lists.{
  Held, Apart, AllApart, Fits, Placed, Held-map, Held-pure, All-pure, All-at, All-map, All-replace,
  All-replaced, All-unreplace, AllApart-new, AllApart-same,
}

pub record IsSafe (a : Arena) : Type 0 where
  pub behind_header : 24 ≤ a.header.current
  pub aligned : a.header.current % 8 ≡ 0
  pub placed : All (Placed a.header.current) a.calls
  pub apart : AllApart a.calls

-- Behind the loop a call keeps its block, and the cursor stays.
finish_call-Held :
    (P : ℕ → ℕ → Type 0) (r : MappedRegion) (n o cursor tally : ℕ)
    → P o n ↔ Held P (finish_call r n o cursor tally).call
unfolding finish_call
finish_call-Held P r n o cursor tally = elim (Bool-cases (ltb r.total_size o)) [
  | inl e ↦ rw (e, finish_call) ((λ h. h), (λ h. h))
  | inr e ↦ rw (e, finish_call) ((λ h. h), (λ h. h))
]

finish_call-cursor :
    (r : MappedRegion) (n o cursor tally : ℕ) → (finish_call r n o cursor tally).cursor ≡ cursor
unfolding finish_call
finish_call-cursor r n o cursor tally = ground arith

Fits-advance :
    (r : MappedRegion) (c : Call) (cursor tally : ℕ) → Fits (advance r c cursor tally).call → Fits c
unfolding advance
Fits-advance r (ready n) cursor tally h = tt
Fits-advance r (loaded n o) cursor tally h = tt
Fits-advance r (claimed n o) cursor tally h =
    (finish_call-Held (λ o n. o + n + 8 ≤ 2 ^ 64) r n o cursor tally).1 h
Fits-advance r (returned n o p) cursor tally h = h

-- What an operation of one call does to a safe arena.
record Kept (cursor : ℕ) (calls : List Call) (i : ℕ) (m : Moved) : Type 0 where
  behind : 24 ≤ m.cursor
  even : m.cursor % 8 ≡ 0
  held : All (Placed m.cursor) (replace calls i m.call)
  apart : AllApart (replace calls i m.call)

module _ (r : MappedRegion) (cursor tally : ℕ) (calls : List Call) (i : ℕ) (behind : 24 ≤ cursor)
    (even : cursor % 8 ≡ 0) (held : All (Placed cursor) calls) (apart : AllApart calls) where
  Kept-without :
      (c : Call)
      → Placed cursor c
      → ((x : Call) → Apart c x × Apart x c)
      → Kept cursor calls i (record { call = c; cursor = cursor; tally = tally })
  Kept-without c p h = record {
    behind = behind;
    even = even;
    held = All-replace (Placed cursor) calls i c p held;
    apart = AllApart-new calls i c (All-pure calls h) apart;
  }

  -- The block that a successful compare-and-swap claims begins at the cursor, so it lies behind all
  -- the others.
  claim-Kept :
      (n : ℕ)
      → cursor + n + 8 ≤ 2 ^ 64
      → Kept cursor calls i
          (record { call = claimed n cursor; cursor = next_slot cursor n; tally = tally })
  claim-Kept n fits =
      let (past, aligned) = next_slot_lem cursor n (omega arith) fits in
      record {
        behind = omega (arith, past);
        even = aligned;
        held =
            All-replace (Placed (next_slot cursor n)) calls i (claimed n cursor)
              (behind, even, past)
              (All-map calls (λ x. Held-map x (λ o k p. (p.0, p.1, omega (arith, past, p.2))))
                held);
        apart =
            AllApart-new calls i (claimed n cursor)
              (All-map calls
                (λ x p. (Held-map x (λ o k q. inr q.2) p, Held-map x (λ o k q. inl q.2) p)) held)
              apart;
      }

  swap_cursor-Kept :
      (n o : ℕ)
      → Fits (swap_cursor n o cursor tally).call
      → Kept cursor calls i (swap_cursor n o cursor tally)
  unfolding swap_cursor
  swap_cursor-Kept n o fits = elim (Bool-cases (cursor == o)) [
    | inl e ↦
        let same : cursor ≡ o = ground arith in
        let room : o + n + 8 ≤ 2 ^ 64 = rw (e, swap_cursor) at fits in
        rw (e, swap_cursor)
          (subst
            (λ k.
              Kept cursor calls i
                (record { call = claimed n k; cursor = next_slot k n; tally = tally }))
            same (claim-Kept n (rw (← same) at room)))
    | inr e ↦ rw (e, swap_cursor) (Kept-without (ready n) tt (λ x. (tt, Held-pure x (λ o' n'. tt))))
  ]

  -- A call that keeps its block changes nothing.
  Kept-same :
      (c : Call) (m : Moved)
      → call_at calls i ≡ some c
      → m.cursor ≡ cursor
      → ((P : ℕ → ℕ → Type 0) → Held P c → Held P m.call)
      → ((x : Call) → Apart x c → Apart x m.call)
      → Kept cursor calls i m
  Kept-same c m at_i still keeps keeps' = record {
    behind = rw still behind;
    even = rw still even;
    held = rw still (
        All-replace (Placed cursor) calls i m.call
          (keeps _ (All-at (Placed cursor) calls i c at_i held)) held);
    apart = AllApart-same calls i c m.call at_i (λ x. keeps _) keeps' apart;
  }

  advance-Kept :
      (c : Call)
      → call_at calls i ≡ some c
      → Fits (advance r c cursor tally).call
      → Kept cursor calls i (advance r c cursor tally)
  unfolding advance
  advance-Kept (ready n) at_i fits =
      Kept-without (loaded n cursor) tt (λ x. (tt, Held-pure x (λ o' n'. tt)))
  advance-Kept (loaded n o) at_i fits = swap_cursor-Kept n o fits
  advance-Kept (claimed n o) at_i fits =
      Kept-same (claimed n o) (finish_call r n o cursor tally) at_i
        (finish_call-cursor r n o cursor tally) (λ P. (finish_call-Held P r n o cursor tally).0)
        (λ x.
          Held-map x (λ o' n'.
            (finish_call-Held (λ o n. (o' + n' ≤ o) ⊎ (o + n ≤ o')) r n o cursor tally).0))
  advance-Kept (returned n o p) at_i fits =
      Kept-same (returned n o p) (record { call = returned n o p; cursor = cursor; tally = tally })
        at_i refl (λ P h. h) (λ x h. h)

step-IsSafe : (e : Event) (a : Arena) → All Fits (step e a).calls → IsSafe a → IsSafe (step e a)
unfolding step
step-IsSafe (enters n) a fits v = record {
  behind_header = v.behind_header;
  aligned = v.aligned;
  placed = (tt, v.placed);
  apart = (All-pure a.calls (λ x. tt), v.apart);
}
step-IsSafe (moves i) a fits v = elim (Option-cases (call_at a.calls i)) [
  | inl e ↦ rw (e, move_call) v
  | inr (c, e) ↦
      let fits' : All Fits
          (replace a.calls i (advance a.region c a.header.current a.region.count).call) =
        rw (e, move_call) at fits in
      let k =
        advance-Kept a.region a.header.current a.region.count a.calls i v.behind_header v.aligned
          v.placed v.apart c e (All-replaced Fits a.calls i c _ e fits') in
      rw (e, move_call)
        (record { behind_header = k.behind; aligned = k.even; placed = k.held; apart = k.apart })
]

-- Blocks are never given back, so what holds of them in the end held before.
step-Fits : (e : Event) (a : Arena) → All Fits (step e a).calls → All Fits a.calls
unfolding step
step-Fits (enters n) a fits = fits.1
step-Fits (moves i) a fits = elim (Option-cases (call_at a.calls i)) [
  | inl e ↦ rw (e, move_call) at fits
  | inr (c, e) ↦
      let fits' : All Fits
          (replace a.calls i (advance a.region c a.header.current a.region.count).call) =
        rw (e, move_call) at fits in
      All-unreplace Fits a.calls i c _ e
        (Fits-advance a.region c a.header.current a.region.count
          (All-replaced Fits a.calls i c _ e fits'))
        fits'
]

history-Fits : (es : List Event) (a : Arena) → All Fits (history es a).calls → All Fits a.calls
unfolding history
history-Fits [] a fits = fits
history-Fits (e ∷ es) a fits = step-Fits e a (history-Fits es (step e a) fits)

-- However the atomic operations of the calls interleave, the blocks of different calls do not
-- overlap, each begins at a multiple of eight behind the header, and each ends before the cursor,
-- provided that no block reaches past the end of the address space.
pub history-IsSafe :
    (es : List Event) (a : Arena) → All Fits (history es a).calls → IsSafe a → IsSafe (history es a)
unfolding history
history-IsSafe [] a fits v = v
history-IsSafe (e ∷ es) a fits v =
    history-IsSafe es (step e a) fits (step-IsSafe e a (history-Fits es (step e a) fits) v)
