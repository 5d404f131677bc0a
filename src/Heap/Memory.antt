-- ===== src/Heap/Memory.antt =====
-- Checked access to the storage of direct_heap.rs.
use mathlib.Core.Path.{subst}
use telora.Common.{
  length-splice, read-splice, splice, ℕ, ◌+◌, ◌-◌, ◌≤◌, ◌≡◌, refl, sym, ap, ◌∙◌, ◌⊎◌, inl, inr,
  Bool, true, false, Option, some, List, arith, ltb, leb, if◌then◌else◌, Bool-cases, length,
  get_elem?, set, take, drop, Result, usize_max, ok, err,
}
use telora.Heap.{Allocation, Heap, Error, invalid_reference, ensure_sorted, extent, bytes, write}
use telora.Heap.View.{owns, view-IsSane}
use telora.Heap.Update.{SameExtent, owner-set}
use telora.Heap.Invariant.{
  IsValid, view, ensure_sorted-IsValid, ensure_sorted-Ascending, view-ensure_sorted, index-cases,
  index-heap,
}
use telora.Heap.Collect.{replaced-IsValid}

abbrev pub written : ℕ → List ℕ → Allocation → Allocation
written a source x = record x { content = splice (a - x.address) source x.content }

-- The checks pass exactly where the extent lies within the block that owns the address.
extent-cases :
    (a n : ℕ) (h : Heap)
    → IsValid h
    → ((e : Error) × (extent a n h ≡ (err e, ensure_sorted h)))
      ⊎ ((i : ℕ) × (x : Allocation) × (extent a n h ≡ (ok (i, x), ensure_sorted h))
          × (view h a ≡ some x)
          × (get_elem? (ensure_sorted h).allocations i ≡ some x)
          × (a - x.address + n ≤ x.bytes)
          × (a - x.address + n ≤ usize_max))
unfolding extent
extent-cases a n h v = elim (index-cases a h v) [
  | inl (e, m) ↦ inl (invalid_reference, rw (e, extent, index-heap a h))
  | inr (i, x, e, m, at) ↦ elim (Bool-cases (leb (a - x.address + n) usize_max)) [
    | inr big ↦ inl (Error.overflow, rw (e, extent, big, index-heap a h))
    | inl fits ↦ elim (Bool-cases (ltb x.bytes (a - x.address + n))) [
      | inl past ↦ inl (invalid_reference, rw (e, extent, fits, past, index-heap a h))
      | inr inside ↦
          inr
            (i, x, rw (e, extent, fits, inside, index-heap a h), m, at, ground arith, ground arith)
    ]
  ]
]

-- The extent lies in one block, whose content has the new bytes at the offset, and the other blocks
-- keep theirs.
pub record Written (a : ℕ) (source : List ℕ) (h h' : Heap) : Type 0 where
  pub valid : IsValid h'
  pub owned :
      (x : Allocation) × (view h a ≡ some x)
      × (a - x.address + length source ≤ x.bytes)
      × (a - x.address + length source ≤ usize_max)
      × ((b : ℕ) → view h' b ≡ (if owns b x then some (written a source x) else view h b))

-- A successful write through `bytes_mut` to a valid heap keeps it valid, its extent lies in one block, that
-- block has the new bytes at the offset, and every other block is as it was.
pub write-Written :
    (a : ℕ) (source : List ℕ) (h h' : Heap)
    → IsValid h
    → write a source h ≡ (ok tt, h')
    → Written a source h h'
unfolding write
write-Written a source h h' v e = elim (extent-cases a (length source) h v) [
  | inl (x, n) ↦ absurd (cc (sym (ap (λ (p : Result (Unit {0}) Error × Heap). p.0) e) ∙ failed x n))
  | inr (i, x, n, m, at, fits, word) ↦ done i x n m at fits word
]
  where
    failed :
        (x : Error)
        → extent a (length source) h ≡ (err x, ensure_sorted h)
        → (write a source h).0 ≡ err x
    failed x n = rw (n, write)

    done :
        (i : ℕ) (x : Allocation)
        → extent a (length source) h ≡ (ok (i, x), ensure_sorted h)
        → view h a ≡ some x
        → get_elem? (ensure_sorted h).allocations i ≡ some x
        → a - x.address + length source ≤ x.bytes
        → a - x.address + length source ≤ usize_max
        → Written a source h h'
    done i x n m at fits word =
        let sorted = ensure_sorted-IsValid h v in
        let sane = (view-IsSane a x h.allocations v.sane m).0 in
        let same : SameExtent x (written a source x) = record {
          same_address = refl;
          same_size = refl;
          same_bytes = refl;
          same_whole =
              length-splice (a - x.address) source x.content (omega (arith, sane.whole, fits));
        } in
        let next : Heap = record (ensure_sorted h) {
          allocations = set (ensure_sorted h).allocations i (written a source x);
        } in
        let heap : write a source h ≡ (ok tt, next) =
          rw (n, write, ap (λ (p : Result (ℕ × Allocation) Error × Heap). p.1) n) in
        let reached : next ≡ h' = ap (λ (p : Result (Unit {0}) Error × Heap). p.1) (sym heap ∙ e) in
        subst (Written a source h) reached record {
          valid =
              replaced-IsValid (ensure_sorted h) i x (written a source x) sorted
                (ensure_sorted-Ascending h v) at same;
          owned = (
            x,
            m,
            fits,
            word,
            λ b.
                owner-set x (written a source x) same b (ensure_sorted h).allocations i at
                  sorted.sane sorted.disjoint
                ∙ ap (λ (o : Option Allocation). if owns b x then some (written a source x) else o)
                    (view-ensure_sorted h b v),
          );
        }

bytes_found :
    (a n : ℕ) (h : Heap) (x : Allocation)
    → IsValid h
    → view h a ≡ some x
    → a - x.address + n ≤ x.bytes
    → a - x.address + n ≤ usize_max
    → (bytes a n h).0 ≡ ok (take n (drop (a - x.address) x.content))
unfolding bytes extent
bytes_found a n h x v m fits top = elim (index-cases a h v) [
  | inl (e, m') ↦ absurd (cc (sym m ∙ m'))
  | inr (i, y, e, m', at) ↦
      let same : y ≡ x = ground arith in
      let small : leb (a - y.address + n) usize_max ≡ true = ground arith in
      let inside : ltb y.bytes (a - y.address + n) ≡ false = ground arith in
      rw (e, bytes, extent, small, inside) (rw same refl)
]

-- Bytes that were written to a valid heap are read back by `bytes` at the same address.
pub bytes-write :
    (a : ℕ) (source : List ℕ) (h h' : Heap)
    → IsValid h
    → write a source h ≡ (ok tt, h')
    → (bytes a (length source) h').0 ≡ ok source
bytes-write a source h h' v e =
    let w = write-Written a source h h' v e in
    let (x, m, fits, word, after) = w.owned in
    let (sane, own) = view-IsSane a x h.allocations v.sane m in
    let here : view h' a ≡ some (written a source x) =
      after a ∙ ap (λ (t : Bool). if t then some (written a source x) else view h a) own in
    bytes_found a (length source) h' (written a source x) w.valid here fits word
    ∙ ap ok (read-splice (a - x.address) source x.content (omega (arith, sane.whole, fits)))
