-- ===== src/MmapAllocator/Disjoint/Lists.antt =====
-- Predicates on the calls of an arena, and what a change of one call does to them.
use rx_rust.Base.{ℕ, zero, suc, ◌+◌, ◌%◌, ◌^◌, ◌≤◌, ◌≡◌, ◌⊎◌, some, List, [], ◌∷◌, All}
use rx_rust.MmapAllocator.Arena.{Call, ready, loaded, claimed, returned, call_at, replace}

-- What is said of the block that a call holds, from its compare-and-swap on.
abbrev pub Held : (ℕ → ℕ → Type 0) → Call → Type 0
Held P (ready n) = Unit
Held P (loaded n o) = Unit
Held P (claimed n o) = P o n
Held P (returned n o p) = P o n

-- Two calls hold no byte in common.
abbrev pub Apart : Call → Call → Type 0
Apart c c' = Held (λ o n. Held (λ o' n'. (o + n ≤ o') ⊎ (o' + n' ≤ o)) c') c

abbrev pub AllApart : List Call → Type 0
AllApart [] = Unit
AllApart (c ∷ cs) = All (Apart c) cs × AllApart cs

-- The block and its rounding stay within the address space.
abbrev pub Fits : Call → Type 0
Fits = Held (λ o n. o + n + 8 ≤ 2 ^ 64)

-- The block begins behind the header at a multiple of eight, and ends before the cursor.
abbrev pub Placed : ℕ → Call → Type 0
Placed cursor = Held (λ o n. (24 ≤ o) × (o % 8 ≡ 0) × (o + n ≤ cursor))

pub Held-map : {P Q : ℕ → ℕ → Type 0} (c : Call) → ((o n : ℕ) → P o n → Q o n) → Held P c → Held Q c
Held-map (ready n) f h = tt
Held-map (loaded n o) f h = tt
Held-map (claimed n o) f h = f o n h
Held-map (returned n o p) f h = f o n h

pub Held-pure : {P : ℕ → ℕ → Type 0} (c : Call) → ((o n : ℕ) → P o n) → Held P c
Held-pure (ready n) f = tt
Held-pure (loaded n o) f = tt
Held-pure (claimed n o) f = f o n
Held-pure (returned n o p) f = f o n

module _ {P : Call → Type 0} where
  pub All-pure : (cs : List Call) → ((c : Call) → P c) → All P cs
  All-pure [] h = tt
  All-pure (c ∷ cs) h = (h c, All-pure cs h)

module _ {P Q : Call → Type 0} where
  pub All-map : (cs : List Call) → ((c : Call) → P c → Q c) → All P cs → All Q cs
  All-map [] h a = tt
  All-map (c ∷ cs) h a = (h c a.0, All-map cs h a.1)

module _ (P : Call → Type 0) where
  pub All-replace : (cs : List Call) (i : ℕ) (c : Call) → P c → All P cs → All P (replace cs i c)
  All-replace [] i c h a = tt
  All-replace (x ∷ cs) zero c h a = (h, a.1)
  All-replace (x ∷ cs) (suc i) c h a = (a.0, All-replace cs i c h a.1)

  pub All-replaced :
      (cs : List Call) (i : ℕ) (c c' : Call)
      → call_at cs i ≡ some c
      → All P (replace cs i c')
      → P c'
  All-replaced [] i c c' e a = cc
  All-replaced (x ∷ cs) zero c c' e a = a.0
  All-replaced (x ∷ cs) (suc i) c c' e a = All-replaced cs i c c' e a.1

  pub All-at : (cs : List Call) (i : ℕ) (c : Call) → call_at cs i ≡ some c → All P cs → P c
  All-at [] i c e a = cc
  All-at (x ∷ cs) zero c e a = let same : x ≡ c = cc in rw (← same) a.0
  All-at (x ∷ cs) (suc i) c e a = All-at cs i c e a.1

  pub All-unreplace :
      (cs : List Call) (i : ℕ) (c c' : Call)
      → call_at cs i ≡ some c
      → P c
      → All P (replace cs i c')
      → All P cs
  All-unreplace [] i c c' e h a = tt
  All-unreplace (x ∷ cs) zero c c' e h a = let same : x ≡ c = cc in (rw same h, a.1)
  All-unreplace (x ∷ cs) (suc i) c c' e h a = (a.0, All-unreplace cs i c c' e h a.1)

pub AllApart-new :
    (cs : List Call) (i : ℕ) (c : Call)
    → All (λ x. Apart c x × Apart x c) cs
    → AllApart cs
    → AllApart (replace cs i c)
AllApart-new [] i c h a = tt
AllApart-new (x ∷ cs) zero c h a = (All-map cs (λ y p. p.0) h.1, a.1)
AllApart-new (x ∷ cs) (suc i) c h a =
    (All-replace (Apart x) cs i c h.0.1 a.0, AllApart-new cs i c h.1 a.1)

pub AllApart-same :
    (cs : List Call) (i : ℕ) (c c' : Call)
    → call_at cs i ≡ some c
    → ((x : Call) → Apart c x → Apart c' x)
    → ((x : Call) → Apart x c → Apart x c')
    → AllApart cs
    → AllApart (replace cs i c')
AllApart-same [] i c c' e f g a = tt
AllApart-same (x ∷ cs) zero c c' e f g a =
    let same : x ≡ c = cc in (All-map cs (λ y p. f y (rw same at p)) a.0, a.1)
AllApart-same (x ∷ cs) (suc i) c c' e f g a = (
  All-replace (Apart x) cs i c' (g x (All-at (Apart x) cs i c e a.0)) a.0,
  AllApart-same cs i c c' e f g a.1,
)
