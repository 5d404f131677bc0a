-- ===== src/Heap/Invariant.antt =====
-- The invariant of direct_heap.rs, and the sorted index.
use telora.Common.{
  ℕ, ◌≤◌, ◌≡◌, refl, sym, ap, ◌∙◌, ◌⊎◌, inl, inr, true, Option, none, some, arith, Bool-cases,
  length, get_elem?, All, Result, ok, err,
}
use telora.Heap.{
  Allocation, Heap, Error, invalid_reference, new, ensure_sorted, locate, index, sort,
}
use telora.Heap.View.{
  owner, IsSane, Disjoint, Ascending, total_bytes, total_size, All-sort, sort-Ascending, owner-sort,
  Ascending-Disjoint, totals-sort,
}
use telora.Heap.Lookup.{Finds, locate-Finds}

-- Allocations do not overlap, the counts are their sums, and the flag tells the truth.
pub record IsValid (h : Heap) : Type 0 where
  pub sane : All IsSane h.allocations
  pub disjoint : Disjoint h.allocations
  pub in_order : h.sorted ≡ true → Ascending h.allocations
  pub bytes_total : total_bytes h.allocations ≡ h.allocated
  pub size_total : total_size h.allocations ≡ h.storage
  pub registered : length h.allocations ≤ h.capacity

-- The abstract heap: which allocation, if any, owns an address.
abbrev pub view : Heap → ℕ → Option Allocation
view h a = owner a h.allocations

pub new-IsValid : (top : ℕ) → IsValid (new top)
unfolding new
new-IsValid top = record {
  sane = tt;
  disjoint = tt;
  in_order = λ e. tt;
  bytes_total = refl;
  size_total = refl;
  registered = omega arith;
}

sorted_already : (h : Heap) → h.sorted ≡ true → ensure_sorted h ≡ h
unfolding ensure_sorted
sorted_already h e = ground arith

pub ensure_sorted-IsValid : (h : Heap) → IsValid h → IsValid (ensure_sorted h)
unfolding ensure_sorted
ensure_sorted-IsValid h v = elim (Bool-cases h.sorted) [
  | inl e ↦ rw (sorted_already h e) v
  | inr e ↦
      let asc = sort-Ascending h.allocations v.sane v.disjoint in
      let same = totals-sort h.allocations in
      rw (e, ensure_sorted)
        record {
          sane = All-sort IsSane h.allocations v.sane;
          disjoint = Ascending-Disjoint (sort h.allocations) asc;
          in_order = λ t. asc;
          bytes_total = omega (arith, same.0, v.bytes_total);
          size_total = omega (arith, same.1, v.size_total);
          registered = omega (arith, same.2, v.registered);
        }
]

pub ensure_sorted-Ascending : (h : Heap) → IsValid h → Ascending (ensure_sorted h).allocations
unfolding ensure_sorted
ensure_sorted-Ascending h v = elim (Bool-cases h.sorted) [
  | inl e ↦ rw (sorted_already h e) (v.in_order e)
  | inr e ↦ rw (e, ensure_sorted) (sort-Ascending h.allocations v.sane v.disjoint)
]

pub view-ensure_sorted : (h : Heap) (a : ℕ) → IsValid h → view (ensure_sorted h) a ≡ view h a
unfolding ensure_sorted
view-ensure_sorted h a v = elim (Bool-cases h.sorted) [
  | inl e ↦ rw (sorted_already h e)
  | inr e ↦ rw (e, ensure_sorted) (owner-sort a h.allocations v.sane v.disjoint)
]

pub index-heap : (a : ℕ) (h : Heap) → (index a h).1 ≡ ensure_sorted h
unfolding index
index-heap a h = refl

-- The two outcomes of the index: the address has no owner, or the entry found is its owner.
pub index-cases :
    (a : ℕ) (h : Heap)
    → IsValid h
    → ((index a h ≡ (err invalid_reference, ensure_sorted h)) × (view h a ≡ none))
      ⊎ ((i : ℕ) × (x : Allocation) × (index a h ≡ (ok (i, x), ensure_sorted h))
          × (view h a ≡ some x)
          × (get_elem? (ensure_sorted h).allocations i ≡ some x))
unfolding index
index-cases a h v = split (locate a (ensure_sorted h).allocations) refl (
    locate-Finds a (ensure_sorted h).allocations (ensure_sorted-IsValid h v).sane
      (ensure_sorted-Ascending h v))
  where
    split :
        (found : Result (ℕ × Allocation) Error)
        → locate a (ensure_sorted h).allocations ≡ found
        → Finds a (ensure_sorted h).allocations found
        → ((index a h ≡ (err invalid_reference, ensure_sorted h)) × (view h a ≡ none))
          ⊎ ((i : ℕ) × (x : Allocation) × (index a h ≡ (ok (i, x), ensure_sorted h))
              × (view h a ≡ some x)
              × (get_elem? (ensure_sorted h).allocations i ≡ some x))
    split (err e) q f =
        inl (λ k. ((q ∙ ap err f.0) k, ensure_sorted h), sym (view-ensure_sorted h a v) ∙ f.1)
    split (ok (i, x)) q f =
        inr (i, x, λ k. (q k, ensure_sorted h), sym (view-ensure_sorted h a v) ∙ f.1, f.0)
