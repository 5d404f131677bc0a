-- ===== src/Heap/View.antt =====
-- The registry of direct_heap.rs as a map from addresses to the allocations that own them, which
-- the order of the registry does not affect.
use mathlib.Core.Path.{subst}
use telora.Common.{
  ℕ, suc, ◌+◌, ◌≤◌, ◌≡◌, refl, ap, ◌∙◌, ◌⊎◌, inl, inr, Bool, true, false, ◌&&◌, Option, none, some,
  List, [], ◌∷◌, arith, ltb, leb, if◌then◌else◌, Bool-cases, length, All,
}
use telora.Heap.{Allocation, insert_sorted, sort}

abbrev pub owns : ℕ → Allocation → Bool
owns a x = leb x.address a && ltb a (x.address + x.bytes)

-- The allocation whose requested extent holds the address, by a search of the whole list.
abbrev pub owner : ℕ → List Allocation → Option Allocation
owner a [] = none
owner a (x ∷ xs) = if owns a x then some x else owner a xs

pub record IsSane (x : Allocation) : Type 0 where
  pub nonempty : 1 ≤ x.bytes
  pub padding : x.bytes ≤ x.size
  pub whole : length x.content ≡ x.bytes

abbrev pub Apart : Allocation → Allocation → Type 0
Apart x y = (x.address + x.size ≤ y.address) ⊎ (y.address + y.size ≤ x.address)

abbrev pub Disjoint : List Allocation → Type 0
Disjoint [] = Unit {0}
Disjoint (x ∷ xs) = All (Apart x) xs × Disjoint xs

-- Each allocation ends before the next one begins.
abbrev pub Ascending : List Allocation → Type 0
Ascending [] = Unit {0}
Ascending (x ∷ xs) = All (λ y. x.address + x.size ≤ y.address) xs × Ascending xs

abbrev pub total_bytes : List Allocation → ℕ
total_bytes [] = 0
total_bytes (x ∷ xs) = x.bytes + total_bytes xs

abbrev pub total_size : List Allocation → ℕ
total_size [] = 0
total_size (x ∷ xs) = x.size + total_size xs

module _ {ℓ} (P : Allocation → Type ℓ) where
  pub All-insert_sorted :
      (x : Allocation) (ys : List Allocation) → P x → All P ys → All P (insert_sorted x ys)
  unfolding insert_sorted
  All-insert_sorted x [] p a = (p, tt)
  All-insert_sorted x (y ∷ ys) p a = elim (Bool-cases (ltb x.address y.address)) [
    | inl e ↦ rw (e, insert_sorted) (p, a)
    | inr e ↦ rw (e, insert_sorted) (a.0, All-insert_sorted x ys p a.1)
  ]

  pub All-sort : (xs : List Allocation) → All P xs → All P (sort xs)
  unfolding sort
  All-sort [] a = tt
  All-sort (x ∷ xs) a = All-insert_sorted x (sort xs) a.0 (All-sort xs a.1)

Apart-symm : (x y : Allocation) → Apart x y → Apart y x
Apart-symm x y (inl h) = inr h
Apart-symm x y (inr h) = inl h

-- Two allocations that lie apart do not both own an address.
pub Apart-owns :
    (a : ℕ) (x y : Allocation)
    → IsSane x
    → IsSane y
    → Apart x y
    → owns a x ≡ true
    → owns a y ≡ false
Apart-owns a x y sx sy ap e = ground arith

pub owner-insert_sorted :
    (a : ℕ) (x : Allocation) (ys : List Allocation)
    → IsSane x
    → All IsSane ys
    → All (Apart x) ys
    → owner a (insert_sorted x ys) ≡ owner a (x ∷ ys)
unfolding insert_sorted
owner-insert_sorted a x [] sx sy d = refl
owner-insert_sorted a x (y ∷ ys) sx sy d =
    ground (arith, owner-insert_sorted a x ys sx sy.1 d.1, Apart-owns a x y sx sy.0 d.0)

pub Ascending-insert_sorted :
    (x : Allocation) (ys : List Allocation)
    → IsSane x
    → All IsSane ys
    → All (Apart x) ys
    → Ascending ys
    → Ascending (insert_sorted x ys)
unfolding insert_sorted
Ascending-insert_sorted x [] sx sy d asc = (tt, tt)
Ascending-insert_sorted x (y ∷ ys) sx sy d asc = elim (Bool-cases (ltb x.address y.address)) [
  | inl e ↦
      let before : x.address + x.size ≤ y.address = ground (arith, sy.0, d.0) in
      rw (e, insert_sorted) ((before, beyond before ys asc.0), asc)
  | inr e ↦
      let after : y.address + y.size ≤ x.address = ground (arith, sx, d.0) in
      rw (e, insert_sorted)
        (
          All-insert_sorted (λ z. y.address + y.size ≤ z.address) x ys after asc.0,
          Ascending-insert_sorted x ys sx sy.1 d.1 asc.1,
        )
]
  where
    beyond :
        x.address + x.size ≤ y.address
        → (zs : List Allocation) → All (λ z. y.address + y.size ≤ z.address) zs
        → All (λ z. x.address + x.size ≤ z.address) zs
    beyond h [] a = tt
    beyond h (z ∷ zs) a = (omega arith, beyond h zs a.1)

pub sort-Ascending : (xs : List Allocation) → All IsSane xs → Disjoint xs → Ascending (sort xs)
unfolding sort
sort-Ascending [] s d = tt
sort-Ascending (x ∷ xs) s d =
    Ascending-insert_sorted x (sort xs) s.0 (All-sort IsSane xs s.1) (All-sort (Apart x) xs d.0)
      (sort-Ascending xs s.1 d.1)

-- Sorting does not change who owns an address.
pub owner-sort :
    (a : ℕ) (xs : List Allocation) → All IsSane xs → Disjoint xs → owner a (sort xs) ≡ owner a xs
unfolding sort
owner-sort a [] s d = refl
owner-sort a (x ∷ xs) s d =
    owner-insert_sorted a x (sort xs) s.0 (All-sort IsSane xs s.1) (All-sort (Apart x) xs d.0)
    ∙ ap (λ (rest : Option Allocation). if owns a x then some x else rest) (owner-sort a xs s.1 d.1)

pub Ascending-Disjoint : (xs : List Allocation) → Ascending xs → Disjoint xs
Ascending-Disjoint [] asc = tt
Ascending-Disjoint (x ∷ xs) asc = (apart xs asc.0, Ascending-Disjoint xs asc.1)
  where
    apart : (ys : List Allocation) → All (λ y. x.address + x.size ≤ y.address) ys → All (Apart x) ys
    apart [] a = tt
    apart (y ∷ ys) a = (inl a.0, apart ys a.1)

totals-insert_sorted :
    (x : Allocation) (ys : List Allocation)
    → (total_bytes (insert_sorted x ys) ≡ x.bytes + total_bytes ys)
      × (total_size (insert_sorted x ys) ≡ x.size + total_size ys)
      × (length (insert_sorted x ys) ≡ suc (length ys))
unfolding insert_sorted
totals-insert_sorted x [] = (refl, refl, refl)
totals-insert_sorted x (y ∷ ys) = ground (arith, totals-insert_sorted x ys)

pub totals-sort :
    (xs : List Allocation)
    → (total_bytes (sort xs) ≡ total_bytes xs)
      × (total_size (sort xs) ≡ total_size xs)
      × (length (sort xs) ≡ length xs)
unfolding sort
totals-sort [] = (refl, refl, refl)
totals-sort (x ∷ xs) =
    let rest = totals-sort xs in
    let first = totals-insert_sorted x (sort xs) in (omega arith, omega arith, omega arith)

-- The owner of an address is a sane allocation whose extent holds it.
pub view-IsSane :
    (a : ℕ) (x : Allocation) (xs : List Allocation)
    → All IsSane xs
    → owner a xs ≡ some x
    → IsSane x × (owns a x ≡ true)
view-IsSane a x [] s e = cc
view-IsSane a x (y ∷ ys) s e = elim (Bool-cases (owns a y)) [
  | inl o ↦
      let same : y ≡ x = ground arith in
      (subst IsSane same s.0, subst (λ (z : Allocation). owns a z ≡ true) same o)
  | inr o ↦ view-IsSane a x ys s.1 (ground arith)
]
