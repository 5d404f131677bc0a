-- ===== src/Heap/Update.antt =====
-- Replacing one entry of the registry of direct_heap.rs by one of the same extent.
use telora.Common.{
  ℕ, zero, suc, ◌+◌, ◌≤◌, ◌≡◌, refl, true, false, some, List, [], ◌∷◌, arith, if◌then◌else◌, length,
  get_elem?, set, All,
}
use telora.Heap.{Allocation}
use telora.Heap.View.{
  owns, owner, IsSane, Apart, Disjoint, Ascending, total_bytes, total_size, Apart-owns,
}

-- The two differ in mark and content only.
pub record SameExtent (x y : Allocation) : Type 0 where
  pub same_address : y.address ≡ x.address
  pub same_size : y.size ≡ x.size
  pub same_bytes : y.bytes ≡ x.bytes
  pub same_whole : length y.content ≡ length x.content

module _ (x y : Allocation) (same : SameExtent x y) where
  pub set-IsSane :
      (xs : List Allocation) (i : ℕ)
      → get_elem? xs i ≡ some x
      → All IsSane xs
      → All IsSane (set xs i y)
  set-IsSane [] i e s = s
  set-IsSane (z ∷ zs) zero e s = (ground (arith, s.0), s.1)
  set-IsSane (z ∷ zs) (suc i) e s = (s.0, set-IsSane zs i e s.1)

  set-after :
      (b : ℕ) (xs : List Allocation) (i : ℕ)
      → get_elem? xs i ≡ some x
      → All (λ z. b ≤ z.address) xs
      → All (λ z. b ≤ z.address) (set xs i y)
  set-after b [] i e a = a
  set-after b (z ∷ zs) zero e a = (ground arith, a.1)
  set-after b (z ∷ zs) (suc i) e a = (a.0, set-after b zs i e a.1)

  pub set-Ascending :
      (xs : List Allocation) (i : ℕ)
      → get_elem? xs i ≡ some x
      → Ascending xs
      → Ascending (set xs i y)
  set-Ascending [] i e a = a
  set-Ascending (z ∷ zs) zero e a = (moved zs a.0, a.1)
    where
      moved :
          (ws : List Allocation)
          → All (λ w. z.address + z.size ≤ w.address) ws
          → All (λ w. y.address + y.size ≤ w.address) ws
      moved [] h = tt
      moved (w ∷ ws) h = (ground arith, moved ws h.1)
  set-Ascending (z ∷ zs) (suc i) e a =
      (set-after (z.address + z.size) zs i e a.0, set-Ascending zs i e a.1)

  pub set-totals :
      (xs : List Allocation) (i : ℕ)
      → get_elem? xs i ≡ some x
      → (total_bytes (set xs i y) ≡ total_bytes xs) × (total_size (set xs i y) ≡ total_size xs)
  set-totals [] i e = (refl, refl)
  set-totals (z ∷ zs) zero e = ground arith
  set-totals (z ∷ zs) (suc i) e = let rest = set-totals zs i e in (omega arith, omega arith)

  -- The addresses of the entry go to its replacement, and no others change hands.
  pub owner-set :
      (a : ℕ) (xs : List Allocation) (i : ℕ)
      → get_elem? xs i ≡ some x
      → All IsSane xs
      → Disjoint xs
      → owner a (set xs i y) ≡ (if owns a x then some y else owner a xs)
  owner-set a [] i e s d = cc
  owner-set a (z ∷ zs) zero e s d = ground arith
  owner-set a (z ∷ zs) (suc i) e s d =
      ground (arith, owner-set a zs i e s.1 d.1, other zs i e s.1 d.0)
    where
      other :
          (ws : List Allocation) (j : ℕ)
          → get_elem? ws j ≡ some x
          → All IsSane ws
          → All (Apart z) ws
          → owns a z ≡ true
          → owns a x ≡ false
      other [] j f t p = cc
      other (w ∷ ws) zero f t p = λ o. ground (arith, Apart-owns a z w s.0 t.0 p.0 o)
      other (w ∷ ws) (suc j) f t p = other ws j f t.1 p.1
