-- ===== src/Heap/Registry.antt =====
-- Room in the registry of direct_heap.rs, and what the allocator documents.
use native.Mathlib.Nat.{div-add-mod}
use telora.Common.{
  ℕ, ◌+◌, ◌-◌, ◌*◌, ◌/◌, ◌≤◌, ◌<◌, min, max, ◌≡◌, ◌⊎◌, inl, inr, some, arith, Option-cases, length,
  All, usize_max, ok,
}
use telora.Heap.{Heap, Allocator, grow, reserve_registration}

-- What the allocator documents: new storage overlaps no live storage, and `try_reserve_exact` gives
-- at least the capacity that was asked for.
pub record Honest (env : Allocator) (h : Heap) : Type 0 where
  pub apart :
      (size a : ℕ)
      → env.zeroed size ≡ some a
      → All (λ x. (x.address + x.size ≤ a) ⊎ (a + size ≤ x.address)) h.allocations
  pub enough : (target c : ℕ) → env.reserve_exact target ≡ some c → target ≤ c

-- Only the capacity differs.
pub record SameObjects (h h' : Heap) : Type 0 where
  pub same_allocations : h'.allocations ≡ h.allocations
  pub same_sorted : h'.sorted ≡ h.sorted
  pub same_allocated : h'.allocated ≡ h.allocated
  pub same_storage : h'.storage ≡ h.storage
  pub same_limit : h'.limit ≡ h.limit

pub div_mul_le : (n w c : ℕ) → c ≤ n / w → c * w ≤ n
div_mul_le n w c h = grind (arith, div-add-mod n w)

-- The capacity that `grow` asks for.
abbrev growth : ℕ → ℕ → ℕ
growth available capacity =
    min (max (min usize_max (capacity + max (capacity / 2) 4)) (capacity + 1)) available

module _ (width : ℕ) where
  -- Success leaves room for one entry within `available`, and a failure keeps the registry's room.
  grow-room :
      (env : Allocator) (available : ℕ) (h : Heap)
      → Honest env h
      → length h.allocations ≡ h.capacity
      → SameObjects h (grow width env available h).1
        × (h.capacity ≤ (grow width env available h).1.capacity)
        × ((grow width env available h).0 ≡ ok tt
            → (h.capacity < (grow width env available h).1.capacity)
              × ((grow width env available h).1.capacity ≤ available))
  unfolding grow
  grow-room env available h honest full =
      elim (Option-cases (env.reserve_exact (growth available h.capacity))) [
        | inl e ↦ ground arith
        | inr (c, e) ↦ ground (arith, honest.enough (growth available h.capacity) c e)
      ]

  pub reserve-room :
      (env : Allocator) (storage : ℕ) (h : Heap)
      → Honest env h
      → length h.allocations ≤ h.capacity
      → SameObjects h (reserve_registration width env storage h).1
        × (length h.allocations ≤ (reserve_registration width env storage h).1.capacity)
        × ((reserve_registration width env storage h).0 ≡ ok tt
            → (length h.allocations < (reserve_registration width env storage h).1.capacity)
              × ((reserve_registration width env storage h).1.capacity
                  ≤ (h.limit - storage) / width)
              × (storage ≤ h.limit))
  unfolding reserve_registration
  reserve-room env storage h honest room =
      ground (arith, grow-room env ((h.limit - storage) / width) h honest)
