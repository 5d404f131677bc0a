-- ===== src/Heap/Sweep.antt =====
-- The sweep of direct_heap.rs keeps exactly the marked allocations.
use telora.Common.{
  ℕ, ◌+◌, ◌-◌, ◌≤◌, ◌≡◌, refl, inl, inr, Bool, true, false, Option, none, some, List, [], ◌∷◌,
  arith, if◌then◌else◌, Bool-cases, length, All,
}
use telora.Heap.{Allocation, Heap, Block, block_of, retain, sweep}
use telora.Heap.View.{
  owns, owner, IsSane, Apart, Disjoint, Ascending, total_bytes, total_size, Apart-owns,
}
use telora.Heap.Invariant.{IsValid, view}
use telora.Heap.Collect.{with_mark}

-- What is left, by a plain filter, and what is not.
abbrev pub survivors : List Allocation → List Allocation
survivors [] = []
survivors (x ∷ xs) = if x.marked then with_mark x false ∷ survivors xs else survivors xs

abbrev pub garbage : List Allocation → List Block
garbage [] = []
garbage (x ∷ xs) = if x.marked then garbage xs else block_of x ∷ garbage xs

retain-lists :
    (xs : List Allocation) (a s : ℕ)
    → ((retain xs a s).0 ≡ survivors xs) × ((retain xs a s).1 ≡ garbage xs)
unfolding retain
retain-lists [] a s = (refl, refl)
retain-lists (x ∷ xs) a s =
    ground (arith, retain-lists xs a s, retain-lists xs (a - x.bytes) (s - x.size))

-- The two counts fall by what is released, and never below zero.
retain-counts :
    (xs : List Allocation) (a s p q : ℕ)
    → total_bytes xs + p ≡ a
    → total_size xs + q ≡ s
    → ((retain xs a s).2 ≡ total_bytes (survivors xs) + p)
      × ((retain xs a s).3 ≡ total_size (survivors xs) + q)
unfolding retain
retain-counts [] a s p q e f = (omega arith, omega arith)
retain-counts (x ∷ xs) a s p q e f = elim (Bool-cases x.marked) [
  | inl m ↦
      let rest = retain-counts xs a s (x.bytes + p) (x.size + q) (omega arith) (omega arith) in
      ground (arith, rest)
  | inr m ↦
      let rest = retain-counts xs (a - x.bytes) (s - x.size) p q (omega arith) (omega arith) in
      ground (arith, rest)
]

survivors-IsSane : (xs : List Allocation) → All IsSane xs → All IsSane (survivors xs)
survivors-IsSane [] s = tt
survivors-IsSane (x ∷ xs) s = ground (arith, survivors-IsSane xs s.1)

survivors-Apart :
    (x : Allocation) (m : Bool) (xs : List Allocation)
    → All (Apart x) xs
    → All (Apart (with_mark x m)) (survivors xs)
survivors-Apart x m [] a = tt
survivors-Apart x m (y ∷ ys) a = elim (Bool-cases y.marked) [
  | inl e ↦ rw (e, survivors) (a.0, survivors-Apart x m ys a.1)
  | inr e ↦ rw (e, survivors) (survivors-Apart x m ys a.1)
]

survivors-Disjoint : (xs : List Allocation) → Disjoint xs → Disjoint (survivors xs)
survivors-Disjoint [] d = tt
survivors-Disjoint (x ∷ xs) d = elim (Bool-cases x.marked) [
  | inl e ↦ rw (e, survivors) (survivors-Apart x false xs d.0, survivors-Disjoint xs d.1)
  | inr e ↦ rw (e, survivors) (survivors-Disjoint xs d.1)
]

survivors-after :
    (b : ℕ) (xs : List Allocation)
    → All (λ z. b ≤ z.address) xs
    → All (λ z. b ≤ z.address) (survivors xs)
survivors-after b [] a = tt
survivors-after b (x ∷ xs) a = ground (arith, survivors-after b xs a.1)

survivors-Ascending : (xs : List Allocation) → Ascending xs → Ascending (survivors xs)
survivors-Ascending [] d = tt
survivors-Ascending (x ∷ xs) d = elim (Bool-cases x.marked) [
  | inl e ↦
      rw (e, survivors) (survivors-after (x.address + x.size) xs d.0, survivors-Ascending xs d.1)
  | inr e ↦ rw (e, survivors) (survivors-Ascending xs d.1)
]

length-survivors : (xs : List Allocation) → length (survivors xs) ≤ length xs
length-survivors [] = omega arith
length-survivors (x ∷ xs) = ground (arith, length-survivors xs)

-- Nothing that lies apart from an owner owns the address too.
owner-Apart :
    (b : ℕ) (x : Allocation) (xs : List Allocation)
    → IsSane x
    → All IsSane xs
    → All (Apart x) xs
    → owns b x ≡ true
    → owner b xs ≡ none
owner-Apart b x [] sx s d o = refl
owner-Apart b x (y ∷ ys) sx s d o =
    ground (arith, owner-Apart b x ys sx s.1 d.1 o, Apart-owns b x y sx s.0 d.0 o)

abbrev pub swept : Option Allocation → Option Allocation
swept none = none
swept (some x) = if x.marked then some (with_mark x false) else none

owner-survivors :
    (b : ℕ) (xs : List Allocation)
    → All IsSane xs
    → Disjoint xs
    → owner b (survivors xs) ≡ swept (owner b xs)
owner-survivors b [] s d = refl
owner-survivors b (x ∷ xs) s d =
    let rest = owner-survivors b xs s.1 d.1 in
    elim (Bool-cases (owns b x)) [
      | inl o ↦ let gone = owner-Apart b x xs s.0 s.1 d.0 o in ground (arith, rest, gone)
      | inr o ↦ ground (arith, rest)
    ]

-- A sweep of a valid heap releases the unmarked allocations in registry order and keeps the marked ones, with
-- their marks cleared and their contents as they were; the two counts are again exact sums.
pub sweep-view :
    (h : Heap) (b : ℕ)
    → IsValid h
    → let (released, h') = sweep h in
      IsValid h' × (released ≡ garbage h.allocations) × (view h' b ≡ swept (view h b))
unfolding sweep
sweep-view h b v =
    let lists = retain-lists h.allocations h.allocated h.storage in
    let counts =
      retain-counts h.allocations h.allocated h.storage 0 0 (omega (arith, v.bytes_total))
        (omega (arith, v.size_total)) in
    (
      record {
        sane = rw (lists.0) (survivors-IsSane h.allocations v.sane);
        disjoint = rw (lists.0) (survivors-Disjoint h.allocations v.disjoint);
        in_order = λ e. rw (lists.0) (survivors-Ascending h.allocations (v.in_order e));
        bytes_total = rw (lists.0) (omega (arith, counts));
        size_total = rw (lists.0) (omega (arith, counts));
        registered = rw (lists.0) (omega (arith, length-survivors h.allocations, v.registered));
      },
      lists.1,
      rw (lists.0) (owner-survivors b h.allocations v.sane v.disjoint),
    )
