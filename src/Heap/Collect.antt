-- ===== src/Heap/Collect.antt =====
-- Marking and sweeping in direct_heap.rs.
use telora.Common.{
  ℕ, ◌≡◌, refl, sym, ap, ◌∙◌, inl, inr, Bool, true, false, Option, none, some, List, [], ◌∷◌, arith,
  if◌then◌else◌, Bool-cases, get_elem?, set, All, length-set, ok, err,
}
use telora.Heap.{Allocation, Heap, invalid_reference, ensure_sorted, block, block_of, mark}
use telora.Heap.View.{
  owns, owner, IsSane, Apart, Disjoint, Ascending, Apart-owns, Ascending-Disjoint,
}
use telora.Heap.Update.{SameExtent, set-IsSane, set-Ascending, set-totals, owner-set}
use telora.Heap.Invariant.{
  IsValid, view, ensure_sorted-IsValid, ensure_sorted-Ascending, view-ensure_sorted, index-cases,
  index-heap,
}

abbrev pub with_mark : Allocation → Bool → Allocation
with_mark x m = record x { marked = m }

with_mark-SameExtent : (x : Allocation) (m : Bool) → SameExtent x (with_mark x m)
with_mark-SameExtent x m = record {
  same_address = refl;
  same_size = refl;
  same_bytes = refl;
  same_whole = refl;
}

-- An entry replaced by one of the same extent, in a valid sorted heap.
pub replaced-IsValid :
    (h : Heap) (i : ℕ) (x y : Allocation)
    → IsValid h
    → Ascending h.allocations
    → get_elem? h.allocations i ≡ some x
    → SameExtent x y
    → IsValid (record h { allocations = set h.allocations i y })
replaced-IsValid h i x y v asc e same =
    let moved = set-Ascending x y same h.allocations i e asc in
    let totals = set-totals x y same h.allocations i e in
    record {
      sane = set-IsSane x y same h.allocations i e v.sane;
      disjoint = Ascending-Disjoint (set h.allocations i y) moved;
      in_order = λ t. moved;
      bytes_total = omega (arith, totals, v.bytes_total);
      size_total = omega (arith, totals, v.size_total);
      registered = omega (arith, length-set h.allocations i y, v.registered);
    }

-- On a valid heap, sorted or not, `block` answers the block of the allocation that owns the address,
-- or fails where none does.
pub block-view :
    (a : ℕ) (h : Heap)
    → IsValid h
    → (block a h).0 ≡ elim (view h a) [ none ↦ err invalid_reference | some x ↦ ok (block_of x) ]
unfolding block
block-view a h v = elim (index-cases a h v) [
  | inl (e, n) ↦ rw (e, block, n)
  | inr (i, x, e, n, at) ↦ rw (e, block, n)
]

-- One allocation owns all the addresses of its extent.
pub owner_same :
    (a b : ℕ) (x : Allocation) (xs : List Allocation)
    → All IsSane xs
    → Disjoint xs
    → owner a xs ≡ some x
    → owns b x ≡ true
    → owner b xs ≡ some x
owner_same a b x [] s d n o = cc
owner_same a b x (y ∷ ys) s d n o = elim (Bool-cases (owns a y)) [
  | inl e ↦ ground arith
  | inr e ↦
      let later : owner a ys ≡ some x = ground arith in
      let hit = owner_same a b x ys s.1 d.1 later o in
      ground (arith, hit, other b x y ys s.0 s.1 d.0 hit)
]
  where
    other :
        (b : ℕ) (x y : Allocation) (zs : List Allocation)
        → IsSane y
        → All IsSane zs
        → All (Apart y) zs
        → owner b zs ≡ some x
        → owns b y ≡ false
    other b x y [] sy s p q = cc
    other b x y (z ∷ zs) sy s p q =
        ground (arith, Apart-owns b y z sy s.0 p.0, other b x y zs sy s.1 p.1)

already :
    (a b : ℕ) (h : Heap) (x : Allocation)
    → IsValid h
    → view h a ≡ some x
    → x.marked ≡ true
    → view h b ≡ (if owns b x then some (with_mark x true) else view h b)
already a b h x v n m = elim (Bool-cases (owns b x)) [
  | inr e ↦ rw e
  | inl e ↦
      let same : with_mark x true ≡ x = ground arith in
      rw e (owner_same a b x h.allocations v.sane v.disjoint n e ∙ ap some (sym same))
]

-- On a valid heap, which it keeps valid, `mark` of an address that nothing owns fails; of an owned one, it marks its allocation and
-- answers the block the first time, and nothing when the mark was set before. The other
-- allocations stay as they are.
pub mark-view :
    (a b : ℕ) (h : Heap)
    → IsValid h
    → let (answer, h') = mark a h in
      IsValid h'
      × (answer ≡ elim (view h a) [
        | none ↦ err invalid_reference
        | some x ↦ ok (if x.marked then none else some (block_of x))
      ])
      × (view h' b ≡ elim (view h a) [
        | none ↦ view h b
        | some x ↦ if owns b x then some (with_mark x true) else view h b
      ])
unfolding mark
mark-view a b h v = elim (index-cases a h v) [
  | inl (e, n) ↦
      rw (e, mark, index-heap a h, n) (ensure_sorted-IsValid h v, refl, view-ensure_sorted h b v)
  | inr (i, x, e, n, at) ↦
      let sorted = ensure_sorted-IsValid h v in
      let asc = ensure_sorted-Ascending h v in
      let same = with_mark-SameExtent x true in
      elim (Bool-cases x.marked) [
        | inl m ↦
            rw (e, mark, index-heap a h, n, m)
              (sorted, refl, view-ensure_sorted h b v ∙ already a b h x v n m)
        | inr m ↦
            rw (e, mark, index-heap a h, n, m)
              (
                replaced-IsValid (ensure_sorted h) i x (with_mark x true) sorted asc at same,
                refl,
                owner-set x (with_mark x true) same b (ensure_sorted h).allocations i at sorted.sane
                      sorted.disjoint
                    ∙ ap
                        (λ (o : Option Allocation). if owns b x then some (with_mark x true) else o)
                        (view-ensure_sorted h b v),
              )
      ]
]
