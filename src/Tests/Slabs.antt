-- ===== src/Tests/Slabs.antt =====
-- A slab as a list of entries.
use rx_rust.Base.{
  ℕ, zero, suc, ◌≡◌, ◌≢◌, refl, subst, sym, ap, Bool, true, false, Option, none, some, List, [],
  ◌∷◌, ◌++◌, length,
}
use rx_rust.Reactor.Services.{Slabs}

abbrev pub entry : {A : Type 0} → List (Option A) → ℕ → Option A
entry [] t = none
entry (x ∷ xs) zero = x
entry (x ∷ xs) (suc t) = entry xs t

-- An entry is replaced where there is one.
abbrev set : {A : Type 0} → List (Option A) → ℕ → Option A → List (Option A)
set [] t a = []
set (x ∷ xs) zero a = a ∷ xs
set (x ∷ xs) (suc t) a = x ∷ set xs t a

pub set-same :
    {A : Type 0} (s : List (Option A)) (t : ℕ) (a : A) (b : Option A)
    → entry s t ≡ some a
    → entry (set s t b) t ≡ b
set-same [] t a b h = absurd (cc)
set-same (x ∷ s) zero a b h = refl
set-same (x ∷ s) (suc t) a b h = set-same s t a b h

pub set-none : {A : Type 0} (s : List (Option A)) (t : ℕ) → entry (set s t none) t ≡ none
set-none [] t = refl
set-none (x ∷ s) zero = refl
set-none (x ∷ s) (suc t) = set-none s t

pub set-other :
    {A : Type 0} (s : List (Option A)) (t u : ℕ) (b : Option A)
    → u ≢ t
    → entry (set s t b) u ≡ entry s u
set-other [] t u b h = refl
set-other (x ∷ s) zero zero b h = absurd (h refl)
set-other (x ∷ s) zero (suc u) b h = refl
set-other (x ∷ s) (suc t) zero b h = refl
set-other (x ∷ s) (suc t) (suc u) b h = set-other s t u b (λ e. h (ap suc e))

end_free : {A : Type 0} (s : List (Option A)) → entry s (length s) ≡ none
end_free [] = refl
end_free (x ∷ s) = end_free s

end_taken :
    {A : Type 0} (s : List (Option A)) (a : A) → entry (s ++ some a ∷ []) (length s) ≡ some a
end_taken [] a = refl
end_taken (x ∷ s) a = end_taken s a

end_other :
    {A : Type 0} (s : List (Option A)) (a : A) (u : ℕ)
    → u ≢ length s
    → entry (s ++ some a ∷ []) u ≡ entry s u
end_other [] a zero h = absurd (h refl)
end_other [] a (suc u) h = refl
end_other (x ∷ s) a zero h = refl
end_other (x ∷ s) a (suc u) h = end_other s a u (λ e. h (ap suc e))

abbrev is_taken : {A : Type 0} → Option A → Bool
is_taken none = false
is_taken (some a) = true

abbrev insert_last : {A : Type 0} → List (Option A) → A → Option (ℕ × List (Option A))
insert_last s a = some (length s, s ++ some a ∷ [])

insert_parts :
    {A : Type 0} (s s' : List (Option A)) (t : ℕ) (a : A)
    → insert_last s a ≡ some (t, s')
    → (length s ≡ t) × (s ++ some a ∷ [] ≡ s')
insert_parts s s' t a e = (cc, cc)

pub insert-fresh :
    {A : Type 0} (s s' : List (Option A)) (t : ℕ) (a : A)
    → insert_last s a ≡ some (t, s')
    → entry s t ≡ none
insert-fresh s s' t a e = subst (λ t. entry s t ≡ none) (insert_parts s s' t a e).0 (end_free s)

pub insert-same :
    {A : Type 0} (s s' : List (Option A)) (t : ℕ) (a : A)
    → insert_last s a ≡ some (t, s')
    → entry s' t ≡ some a
insert-same s s' t a e =
    let (at, new) = insert_parts s s' t a e in
    subst (λ t. entry s' t ≡ some a) at
      (subst (λ s'. entry s' (length s) ≡ some a) new (end_taken s a))

pub insert-other :
    {A : Type 0} (s s' : List (Option A)) (t u : ℕ) (a : A)
    → insert_last s a ≡ some (t, s')
    → u ≢ t
    → entry s' u ≡ entry s u
insert-other s s' t u a e h =
    let (at, new) = insert_parts s s' t a e in
    subst (λ s'. entry s' u ≡ entry s u) new (end_other s a u (subst (λ t. u ≢ t) (sym at) h))

abbrev pub slabs : Slabs
slabs = record {
  Slab = λ A. List (Option A);
  starting_at = λ start capacity. [];
  contains = λ s t. is_taken (entry s t);
  get = entry;
  store = λ s t a. set s t (some a);
  insert = insert_last;
  remove = λ s t. set s t none;
  get-starting_at = λ start capacity t. refl;
  store-same = λ s t a b h. set-same s t a (some b) h;
  store-other = λ s t u b h. set-other s t u (some b) h;
  remove-same = set-none;
  remove-other = λ s t u h. set-other s t u none h;
  insert-fresh = insert-fresh;
  insert-same = insert-same;
  insert-other = insert-other;
}
