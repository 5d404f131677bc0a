-- ===== src/Heap/Collection.antt =====
-- A whole collection over direct_heap.rs: marking a list of references, then sweeping.
use telora.Common.{
  ℕ, ◌≡◌, refl, sym, ap, ◌∙◌, inl, inr, Bool, true, false, ◌||◌, Option, none, some, List, [], ◌∷◌,
  arith, if◌then◌else◌, Bool-cases, All,
}
use telora.Heap.{Allocation, Heap, Block, mark, sweep}
use telora.Heap.View.{owns, owner, view-IsSane}
use telora.Heap.Invariant.{IsValid, view}
use telora.Heap.Collect.{with_mark, mark-view, owner_same}
use telora.Heap.Sweep.{swept, sweep-view}

-- The collector marks each reference that the trace reaches, interior ones too.
pub mark_all : List ℕ → Heap → Heap
mark_all [] h = h
mark_all (a ∷ refs) h = mark_all refs (mark a h).1

pub collect : List ℕ → Heap → List Block × Heap
unfolding mark_all
collect refs h = sweep (mark_all refs h)

-- Some reference of the list points into the allocation.
abbrev pub reached : List ℕ → Allocation → Bool
reached [] x = false
reached (a ∷ refs) x = owns a x || reached refs x

abbrev marked_by : List ℕ → Option Allocation → Option Allocation
marked_by refs none = none
marked_by refs (some x) = some (if reached refs x then with_mark x true else x)

-- One mark, seen at any address.
module _ (a b : ℕ) (h : Heap) (v : IsValid h) where
  abbrev after_mark : Option Allocation
  after_mark = elim (view h a) [
    | none ↦ view h b
    | some x ↦ if owns b x then some (with_mark x true) else view h b
  ]

  unowned :
      (y : Allocation)
      → view h a ≡ none
      → view h b ≡ some y
      → after_mark ≡ marked_by (a ∷ []) (view h b)
  unowned y m n = elim (Bool-cases (owns a y)) [
    | inl o ↦ absurd (cc (sym m ∙ owner_same b a y h.allocations v.sane v.disjoint n o))
    | inr o ↦ rw (m, after_mark, n) (ground arith)
  ]

  elsewhere :
      (x y : Allocation)
      → view h a ≡ some x
      → view h b ≡ some y
      → owns b x ≡ false
      → after_mark ≡ marked_by (a ∷ []) (view h b)
  elsewhere x y m n o = elim (Bool-cases (owns a y)) [
    | inl q ↦
        let same : x ≡ y = ground (arith, owner_same b a y h.allocations v.sane v.disjoint n q) in
        absurd (cc (sym o ∙ ap (owns b) same ∙ (view-IsSane b y h.allocations v.sane n).1))
    | inr q ↦ rw (m, after_mark, n, o) (ground arith)
  ]

  owned :
      (x : Allocation)
      → view h a ≡ some x
      → owns b x ≡ true
      → after_mark ≡ marked_by (a ∷ []) (view h b)
  owned x m o =
      let own = (view-IsSane a x h.allocations v.sane m).1 in
      rw (m, after_mark, owner_same a b x h.allocations v.sane v.disjoint m o) (ground arith)

  mark_one : IsValid (mark a h).1 × (view (mark a h).1 b ≡ marked_by (a ∷ []) (view h b))
  mark_one =
      let (valid, answer, seen) = mark-view a b h v in
      (valid, seen ∙ split (view h a) (view h b) refl refl)
    where
      split :
          (o p : Option Allocation)
          → view h a ≡ o
          → view h b ≡ p
          → after_mark ≡ marked_by (a ∷ []) (view h b)
      split none none m n = rw (m, after_mark, n)
      split none (some y) m n = unowned y m n
      split (some x) none m n = elim (Bool-cases (owns b x)) [
        | inl o ↦ owned x m o
        | inr o ↦ rw (m, after_mark, n, o)
      ]
      split (some x) (some y) m n = elim (Bool-cases (owns b x)) [
        | inl o ↦ owned x m o
        | inr o ↦ elsewhere x y m n o
      ]

reached-with_mark :
    (refs : List ℕ) (x : Allocation) (m : Bool) → reached refs (with_mark x m) ≡ reached refs x
reached-with_mark [] x m = refl
reached-with_mark (a ∷ refs) x m = ap (λ (t : Bool). owns a x || t) (reached-with_mark refs x m)

marked_by-cons :
    (a : ℕ) (refs : List ℕ) (o : Option Allocation)
    → marked_by refs (marked_by (a ∷ []) o) ≡ marked_by (a ∷ refs) o
marked_by-cons a refs none = refl
marked_by-cons a refs (some x) = ground (arith, reached-with_mark refs x true)

mark_all-view :
    (refs : List ℕ) (b : ℕ) (h : Heap)
    → IsValid h
    → IsValid (mark_all refs h) × (view (mark_all refs h) b ≡ marked_by refs (view h b))
unfolding mark_all
mark_all-view [] b h v = (v, ground arith)
mark_all-view (a ∷ refs) b h v =
    let (valid, one) = mark_one a b h v in
    let (rest, seen) = mark_all-view refs b (mark a h).1 valid in
    (rest, seen ∙ ap (marked_by refs) one ∙ marked_by-cons a refs (view h b))

-- No mark is left over from an earlier collection.
abbrev pub Unmarked : Heap → Type 0
Unmarked h = All (λ x. x.marked ≡ false) h.allocations

owner-unmarked :
    (b : ℕ) (x : Allocation) (xs : List Allocation)
    → All (λ y. y.marked ≡ false) xs
    → owner b xs ≡ some x
    → x.marked ≡ false
owner-unmarked b x [] u e = cc
owner-unmarked b x (y ∷ ys) u e = ground (arith, owner-unmarked b x ys u.1, u.0)

-- A collection of a valid heap without marks keeps the heap valid and keeps exactly the blocks that
-- some reference points into, unchanged at the same addresses and unmarked again, and no address of another block is owned.
pub collect-view :
    (refs : List ℕ) (b : ℕ) (h : Heap)
    → IsValid h
    → Unmarked h
    → IsValid (collect refs h).1
      × (view (collect refs h).1 b
          ≡ elim (view h b) [ none ↦ none | some x ↦ if reached refs x then some x else none ])
unfolding collect
collect-view refs b h v u =
    let (valid, seen) = mark_all-view refs b h v in
    let (after, released, left) = sweep-view (mark_all refs h) b valid in
    (after, left ∙ ap swept seen ∙ split (view h b) refl)
  where
    split :
        (o : Option Allocation)
        → view h b ≡ o
        → swept (marked_by refs (view h b))
          ≡ elim (view h b) [ none ↦ none | some x ↦ if reached refs x then some x else none ]
    split none n = rw n
    split (some x) n =
        let off = owner-unmarked b x h.allocations u n in
        elim (Bool-cases (reached refs x)) [
          | inl r ↦ let same : with_mark x false ≡ x = ground arith in rw (n, r) (ap some same)
          | inr r ↦ rw (n, r) (ground arith)
        ]
