-- ===== src/Heap/Lookup.antt =====
-- The interval index of direct_heap.rs finds the owner of an address.
use telora.Common.{
  ℕ, zero, suc, ◌+◌, ◌-◌, ◌≤◌, ◌<◌, ◌≡◌, refl, inl, inr, true, false, Option, none, some, List, [],
  ◌∷◌, arith, leb, leb→le, Bool-cases, get_elem?, All, Result, ok, err,
}
use telora.Heap.{Allocation, Error, invalid_reference, partition_point, within, locate}
use telora.Heap.View.{owns, owner, IsSane, Ascending}

-- Below the first allocation nothing owns the address.
owner_below : (a : ℕ) (xs : List Allocation) → All (λ y. a < y.address) xs → owner a xs ≡ none
owner_below a [] h = refl
owner_below a (x ∷ xs) h = ground (arith, owner_below a xs h.1)

later_start :
    (b a : ℕ) (xs : List Allocation)
    → a < b
    → All (λ y. b ≤ y.address) xs
    → All (λ y. a < y.address) xs
later_start b a [] h s = tt
later_start b a (x ∷ xs) h s = (omega arith, later_start b a xs h s.1)

-- What `locate` finds is the entry of the registry at that index, and the owner.
abbrev pub Finds : ℕ → List Allocation → Result (ℕ × Allocation) Error → Type 0
Finds a xs (err e) = (e ≡ invalid_reference) × (owner a xs ≡ none)
Finds a xs (ok (i, x)) = (get_elem? xs i ≡ some x) × (owner a xs ≡ some x)

Finds-shift :
    (a q : ℕ) (x : Allocation) (xs : List Allocation) (e : Option Allocation)
    → owns a x ≡ false
    → Finds a xs (within a q e)
    → Finds a (x ∷ xs) (within a (suc q) e)
unfolding within
Finds-shift a q x xs none out f = (refl, rw out f.1)
Finds-shift a q x xs (some y) out f = elim (Bool-cases (leb y.bytes (a - y.address))) [
  | inl e ↦ rw (e, within) (refl, rw out (rw (e, within) at f).1)
  | inr e ↦ rw (e, within) ((rw (e, within) at f).0, rw out (rw (e, within) at f).1)
]

-- The entry before the first one that begins past the address.
Finds-first :
    (a : ℕ) (x : Allocation) (xs : List Allocation)
    → x.address ≤ a
    → owner a xs ≡ none
    → Finds a (x ∷ xs) (within a 0 (some x))
unfolding within
Finds-first a x xs h n = elim (Bool-cases (leb x.bytes (a - x.address))) [
  | inl e ↦ rw (e, within) (refl, ground arith)
  | inr e ↦ rw (e, within) (refl, ground arith)
]

point_zero :
    (a : ℕ) (xs : List Allocation)
    → Ascending xs
    → All IsSane xs
    → partition_point a xs ≡ 0
    → All (λ y. a < y.address) xs
unfolding partition_point
point_zero a [] asc s e = tt
point_zero a (x ∷ xs) asc s e =
    let above : a < x.address = ground arith in
    (above, later_start (x.address + x.size) a xs (omega arith) asc.0)

point_suc :
    (a b : ℕ) (xs : List Allocation) {q : ℕ}
    → All (λ y. b ≤ y.address) xs
    → partition_point a xs ≡ suc q
    → b ≤ a
unfolding partition_point
point_suc a b [] h e = absurd (omega arith)
point_suc a b (x ∷ xs) h e = ground arith

pred_suc : (q : ℕ) → suc q - 1 ≡ q
pred_suc q = omega arith

locate_at :
    (a : ℕ) (xs : List Allocation) (q : ℕ)
    → partition_point a xs ≡ suc q
    → locate a xs ≡ within a q (get_elem? xs q)
unfolding locate
locate_at a xs q z = rw (z, locate, pred_suc q) (ground arith)

locate_next :
    (a : ℕ) (x : Allocation) (xs : List Allocation) (q : ℕ)
    → leb x.address a ≡ true
    → partition_point a xs ≡ suc q
    → locate a (x ∷ xs) ≡ within a (suc q) (get_elem? xs q)
locate_next a x xs q e z =
    locate_at a (x ∷ xs) (suc q) (unfold partition_point in rw (e, z, partition_point))

-- On a sorted registry of sane entries, the binary search of `locate` finds the entry that a search
-- of the whole list finds for the address, with its index, or fails where there is none.
pub locate-Finds :
    (a : ℕ) (xs : List Allocation) → All IsSane xs → Ascending xs → Finds a xs (locate a xs)
unfolding locate
locate-Finds a [] s asc = unfold partition_point in (refl, refl)
locate-Finds a (x ∷ xs) s asc = elim (Bool-cases (leb x.address a)) [
  | inr e ↦
      let past : a < x.address = ground arith in
      let none_after =
        owner_below a xs (later_start (x.address + x.size) a xs (omega arith) asc.0) in
      rw (e, locate, partition_point) ((refl, ground arith))
  | inl e ↦ split (leb→le x.address a e) e (partition_point a xs) refl (locate-Finds a xs s.1 asc.1)
]
  where
    split :
        x.address ≤ a
        → leb x.address a ≡ true
        → (p : ℕ) → partition_point a xs ≡ p
        → Finds a xs (locate a xs)
        → Finds a (x ∷ xs) (locate a (x ∷ xs))
    split h e zero z f =
        let after = owner_below a xs (point_zero a xs asc.1 s.1 z) in
        rw (e, z, locate, partition_point) (Finds-first a x xs h after)
    split h e (suc q) z f =
        let out : owns a x ≡ false =
          ground (arith, point_suc a (x.address + x.size) xs asc.0 z, s.0) in
        rw (locate_next a x xs q e z)
          (Finds-shift a q x xs (get_elem? xs q) out (rw (locate_at a xs q z) at f))
