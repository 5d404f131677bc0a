-- ===== src/Heap/Allocate.antt =====
-- Allocation in direct_heap.rs: budget, failure and the new owner.
use mathlib.Core.Path.{subst}
use telora.Common.{
  ℕ, zero, ◌+◌, ◌-◌, ◌*◌, ◌/◌, ◌≤◌, ◌<◌, max, ◌≡◌, refl, inl, inr, false, ◌&&◌, some, List, [], ◌∷◌,
  ◌++◌, arith, ltb, leb, if◌then◌else◌, Bool-cases, Option-cases, length, replicate, All,
  length-append, length-replicate, Result, usize_max, ok, err,
}
use telora.Heap.{
  Allocation, Heap, Error, Allocator, padded, reserve_registration, acquire, allocate,
}
use telora.Heap.View.{owns, owner, IsSane, Apart, Disjoint, total_bytes, total_size, Apart-owns}
use telora.Heap.Invariant.{IsValid, view}
use telora.Heap.Registry.{Honest, SameObjects, div_mul_le, reserve-room}

-- The entry that `acquire` appends.
abbrev pub fresh : (address size bytes descriptor : ℕ) → Allocation
fresh address size bytes descriptor = record {
  address = address;
  size = size;
  bytes = bytes;
  descriptor = descriptor;
  marked = false;
  content = replicate bytes 0;
}

module _ (x : Allocation) where
  pub append-IsSane : (xs : List Allocation) → All IsSane xs → IsSane x → All IsSane (xs ++ x ∷ [])
  append-IsSane [] s sx = (sx, tt)
  append-IsSane (y ∷ ys) s sx = (s.0, append-IsSane ys s.1 sx)

  append-Apart :
      (y : Allocation) (xs : List Allocation)
      → All (Apart y) xs
      → Apart y x
      → All (Apart y) (xs ++ x ∷ [])
  append-Apart y [] a ay = (ay, tt)
  append-Apart y (z ∷ zs) a ay = (a.0, append-Apart y zs a.1 ay)

  pub append-Disjoint :
      (xs : List Allocation) → Disjoint xs → All (λ y. Apart y x) xs → Disjoint (xs ++ x ∷ [])
  append-Disjoint [] d a = (tt, tt)
  append-Disjoint (y ∷ ys) d a = (append-Apart y ys d.0 a.0, append-Disjoint ys d.1 a.1)

  pub append-totals :
      (xs : List Allocation)
      → (total_bytes (xs ++ x ∷ []) ≡ total_bytes xs + x.bytes)
        × (total_size (xs ++ x ∷ []) ≡ total_size xs + x.size)
  append-totals [] = (omega arith, omega arith)
  append-totals (y ∷ ys) = let rest = append-totals ys in (omega arith, omega arith)

  pub owner-append :
      (b : ℕ) (xs : List Allocation)
      → All IsSane xs
      → IsSane x
      → All (λ y. Apart y x) xs
      → owner b (xs ++ x ∷ []) ≡ (if owns b x then some x else owner b xs)
  owner-append b [] s sx a = refl
  owner-append b (y ∷ ys) s sx a =
      ground (arith, owner-append b ys s.1 sx a.1, Apart-owns b y x s.0 sx a.0)

padded_bounds : (bytes size : ℕ) → padded bytes ≡ some size → (bytes ≤ size) × (size ≤ bytes + 7)
unfolding padded
padded_bounds bytes size e = ground arith

-- The state after storage of a size was acquired at an address apart from all others.
acquired-IsValid :
    (h : Heap) (address size bytes descriptor : ℕ)
    → IsValid h
    → 1 ≤ bytes
    → bytes ≤ size
    → All (λ x. Apart x (fresh address size bytes descriptor)) h.allocations
    → length h.allocations < h.capacity
    → IsValid (record h {
      allocations = h.allocations ++ fresh address size bytes descriptor ∷ [];
      storage = h.storage + size;
      allocated = h.allocated + bytes;
      sorted = false;
    })
acquired-IsValid h address size bytes descriptor v pos fits apart room =
    let x = fresh address size bytes descriptor in
    let sums = append-totals x h.allocations in
    record {
      sane =
          append-IsSane x h.allocations v.sane
            (record { nonempty = pos; padding = fits; whole = length-replicate bytes (zero) });
      disjoint = append-Disjoint x h.allocations v.disjoint apart;
      in_order = λ e. cc;
      bytes_total = omega (arith, sums, v.bytes_total);
      size_total = omega (arith, sums, v.size_total);
      registered = omega (arith, length-append h.allocations (x ∷ []), room);
    }

same_but_capacity : (h h' : Heap) → SameObjects h h' → h' ≡ record h { capacity = h'.capacity }
same_but_capacity h h' s =
    ground
      (arith, s.same_allocations, s.same_sorted, s.same_allocated, s.same_storage, s.same_limit)

SameObjects-IsValid :
    (h h' : Heap) → IsValid h → SameObjects h h' → length h.allocations ≤ h'.capacity → IsValid h'
SameObjects-IsValid h h' v s room = rw (same_but_capacity h h' s) record {
  sane = v.sane;
  disjoint = v.disjoint;
  in_order = v.in_order;
  bytes_total = v.bytes_total;
  size_total = v.size_total;
  registered = room;
}

-- What one call of the allocator amounts to on a valid heap.
pub record Allocated (width : ℕ) (h : Heap) (bytes descriptor a : ℕ) (h' : Heap) : Type 0 where
  pub valid : IsValid h'
  pub owned :
      (size : ℕ) × (padded bytes ≡ some size)
      × ((b : ℕ)
          → view h' b ≡ (
              if leb a b && ltb b (a + bytes)
              then some (fresh a size bytes descriptor)
              else view h b))
  pub within_budget : h'.storage + h'.capacity * width ≤ h.limit
  pub same_limit : h'.limit ≡ h.limit

-- The state after a successful call, where the registry has grown to `c` entries.
abbrev acquired : (h : Heap) (c address size bytes descriptor : ℕ) → Heap
acquired h c address size bytes descriptor = record h {
  capacity = c;
  allocations = h.allocations ++ fresh address size bytes descriptor ∷ [];
  storage = h.storage + size;
  allocated = h.allocated + bytes;
  sorted = false;
}

acquired-Allocated :
    (width : ℕ) (env : Allocator) (h : Heap) (c bytes size descriptor a : ℕ)
    → IsValid h
    → Honest env h
    → 1 ≤ bytes
    → padded bytes ≡ some size
    → env.zeroed size ≡ some a
    → length h.allocations < c
    → c ≤ (h.limit - (h.storage + size)) / width
    → h.storage + size ≤ h.limit
    → Allocated width h bytes descriptor a (acquired h c a size bytes descriptor)
acquired-Allocated width env h c bytes size descriptor a v honest pos p z room le fits =
    let (small, big) = padded_bounds bytes size p in
    let apart = honest.apart size a z in
    let x = fresh a size bytes descriptor in
    let grown =
      SameObjects-IsValid h (record h { capacity = c }) v
        (record {
          same_allocations = refl;
          same_sorted = refl;
          same_allocated = refl;
          same_storage = refl;
          same_limit = refl;
        })
        (omega (arith, room)) in
    record {
      valid =
          acquired-IsValid (record h { capacity = c }) a size bytes descriptor grown pos small apart
            room;
      owned = (
        size,
        p,
        λ b.
            owner-append x b h.allocations v.sane
              (record { nonempty = pos; padding = small; whole = length-replicate bytes (zero) })
              apart,
      );
      within_budget = omega (arith, div_mul_le (h.limit - (h.storage + size)) width c le, fits);
      same_limit = refl;
    }

acquire-inversion :
    (env : Allocator) (h1 h' : Heap) (bytes size storage descriptor a : ℕ)
    → acquire env bytes size storage descriptor (ok tt, h1) ≡ (ok a, h')
    → (env.zeroed size ≡ some a)
      × (h' ≡ record h1 {
        allocations = h1.allocations ++ fresh a size bytes descriptor ∷ [];
        storage = storage;
        allocated = h1.allocated + bytes;
        sorted = false;
      })
unfolding acquire
acquire-inversion env h1 h' bytes size storage descriptor a e =
    elim (Option-cases (env.zeroed size)) [
      | inl z ↦ absurd (ground arith)
      | inr (a', z) ↦ (ground arith, ground arith)
    ]

Allocated-from :
    (width : ℕ) (env : Allocator) (h : Heap) (bytes size descriptor a : ℕ) (h' : Heap)
    → IsValid h
    → Honest env h
    → 1 ≤ bytes
    → padded bytes ≡ some size
    → (res : Result (Unit {0}) Error × Heap)
    → reserve_registration width env (h.storage + size) h ≡ res
    → acquire env bytes size (h.storage + size) descriptor res ≡ (ok a, h')
    → Allocated width h bytes descriptor a h'
Allocated-from width env h bytes size descriptor a h' v honest pos p (err x, h1) r e =
    absurd (unfold acquire in cc)
Allocated-from width env h bytes size descriptor a h' v honest pos p (ok u, h1) r e =
    let (z, after) = acquire-inversion env h1 h' bytes size (h.storage + size) descriptor a e in
    let room =
      subst
        (λ (q : Result (Unit {0}) Error × Heap).
          SameObjects h q.1
          × (length h.allocations ≤ q.1.capacity)
          × (q.0 ≡ ok tt
              → (length h.allocations < q.1.capacity)
                × (q.1.capacity ≤ (h.limit - (h.storage + size)) / width)
                × (h.storage + size ≤ h.limit)))
        r (reserve-room width env (h.storage + size) h honest v.registered) in
    let (lt, le, fits) = room.2 refl in
    let whole =
      acquired-Allocated width env h h1.capacity bytes size descriptor a v honest pos p z lt le
        fits in
    let same : acquired h h1.capacity a size bytes descriptor ≡ h' =
      ground (arith, room.0, after) in
    subst (Allocated width h bytes descriptor a) same whole

-- With an honest allocator, a successful `allocate` keeps a valid heap valid, gives the new zeroed block the addresses of the
-- requested extent and takes none from another block, and leaves the storage and the registry
-- together within the limit.
pub allocate-Allocated :
    (width : ℕ) (env : Allocator) (requested descriptor a : ℕ) (h h' : Heap)
    → IsValid h
    → Honest env h
    → allocate width env requested descriptor h ≡ (ok a, h')
    → Allocated width h (max requested 1) descriptor a h'
unfolding allocate
allocate-Allocated width env requested descriptor a h h' v honest e =
    elim (Option-cases (padded (max requested 1))) [
      | inl n ↦ absurd (ground arith)
      | inr (size, p) ↦ elim (Bool-cases (leb (h.storage + size) usize_max)) [
        | inr big ↦ absurd (ground arith)
        | inl fits ↦
            Allocated-from width env h (max requested 1) size descriptor a h' v honest (omega arith)
              p (reserve_registration width env (h.storage + size) h) refl (ground arith)
      ]
    ]

acquire_failed :
    (env : Allocator) (bytes size storage descriptor : ℕ) (res : Result (Unit {0}) Error × Heap)
    (x : Error) (h' : Heap)
    → acquire env bytes size storage descriptor res ≡ (err x, h')
    → h' ≡ res.1
unfolding acquire
acquire_failed env bytes size storage descriptor (err y, h) x h' e = ground arith
acquire_failed env bytes size storage descriptor (ok u, h) x h' e = ground arith

-- With an honest allocator, a failed `allocate` keeps a valid heap valid and leaves every object,
-- both counts and the limit as they were; only the
-- capacity of the registry may have grown.
pub allocate_failed :
    (width : ℕ) (env : Allocator) (requested descriptor : ℕ) (x : Error) (h h' : Heap)
    → IsValid h
    → Honest env h
    → allocate width env requested descriptor h ≡ (err x, h')
    → SameObjects h h' × IsValid h'
unfolding allocate
allocate_failed width env requested descriptor x h h' v honest e =
    elim (Option-cases (padded (max requested 1))) [
      | inl n ↦ unchanged (ground arith)
      | inr (size, p) ↦ elim (Bool-cases (leb (h.storage + size) usize_max)) [
        | inr big ↦ unchanged (ground arith)
        | inl fits ↦
            let room = reserve-room width env (h.storage + size) h honest v.registered in
            let after : h' ≡ (reserve_registration width env (h.storage + size) h).1 =
              acquire_failed env (max requested 1) size (h.storage + size) descriptor
                (reserve_registration width env (h.storage + size) h) x h' (ground arith) in
            rw after (room.0, SameObjects-IsValid h _ v room.0 room.1)
      ]
    ]
  where
    unchanged : h' ≡ h → SameObjects h h' × IsValid h'
    unchanged q = rw q (
      record {
        same_allocations = refl;
        same_sorted = refl;
        same_allocated = refl;
        same_storage = refl;
        same_limit = refl;
      },
      v,
    )
