-- ===== src/Heap.antt =====
-- crates/telora-wasm-shared/src/direct_heap.rs: the registry of independent allocations behind the
-- nonmoving collector. The registry is a list in vector order; each allocation carries the bytes of
-- the storage that it owns, which the source reaches through its pointer.
pub mod View
pub mod Lookup
pub mod Update
pub mod Invariant
pub mod Collect
pub mod Sweep
pub mod Registry
pub mod Allocate
pub mod Memory
pub mod Collection
mod Examples
use telora.Common.{
  splice, ℕ, zero, suc, ◌+◌, ◌-◌, ◌*◌, ◌/◌, ◌%◌, ◌^◌, ◌≤◌, ◌<◌, min, max, bit_and, bit_or, bit_xor,
  ◌≡◌, refl, sym, ap, ◌∙◌, ◌≢◌, ◌↔◌, ◌⊎◌, inl, inr, Bool, true, false, not, ◌&&◌, ◌||◌, Option,
  none, some, List, [], ◌∷◌, ◌++◌, map, arith, ltb, leb, ◌==◌, if◌then◌else◌, ltb→lt, lt→ltb,
  leb→le, le→leb, not_leb→lt, ==→eq, ==-self, tests, Bool-cases, Option-cases, length, get_elem?,
  get_or, set, take, drop, replicate, All, length-append, length-set, length-take, length-drop,
  length-replicate, take-append, drop-append, take-append-drop, get_elem?-set_self,
  get_elem?-set_ne, get_elem?-append_left, get_elem?-append_last, get_elem?-lt, get_elem?-ge,
  get_elem?-some, get_elem?-take, take-set, take-take, take-append_short, take-all, Result, u32_max,
  u64_max, usize_max, checked_add, checked_mul, ok_or, ok, err,
}

pub data Error : Type 0 where
  overflow limit allocation invalid_reference : Error

pub record Block : Type 0 where
  pub address : ℕ
  pub bytes : ℕ
  pub descriptor : ℕ

pub record Usage : Type 0 where
  pub allocated : ℕ
  pub storage : ℕ
  pub metadata : ℕ
  pub objects : ℕ

-- `size` is that of the padded layout.
pub record Allocation : Type 0 where
  pub address : ℕ
  pub size : ℕ
  pub bytes : ℕ
  pub descriptor : ℕ
  pub marked : Bool
  pub content : List ℕ

abbrev pub block_of : Allocation → Block
block_of x = record { address = x.address; bytes = x.bytes; descriptor = x.descriptor }

-- `capacity` is that of the vector.
pub record Heap : Type 0 where
  pub allocations : List Allocation
  pub capacity : ℕ
  pub sorted : Bool
  pub allocated : ℕ
  pub storage : ℕ
  pub limit : ℕ

pub new : ℕ → Heap
new top = record {
  allocations = [];
  capacity = 0;
  sorted = true;
  allocated = 0;
  storage = 0;
  limit = top;
}

-- The answers of the allocator: the address of zeroed storage of a size, and the capacity of the
-- registry after `try_reserve_exact` up to a target. `none` is a failure.
pub record Allocator : Type 0 where
  pub zeroed : ℕ → Option ℕ
  pub reserve_exact : ℕ → Option ℕ

abbrev pub isize_max : ℕ
isize_max = 2 ^ 31 - 1

-- `Layout::from_size_align(bytes, 8)`, then `pad_to_align`.
pub padded : ℕ → Option ℕ
padded bytes = let size = (bytes + 7) / 8 * 8 in if leb size isize_max then some size else none

-- `allocate` once the registry has room for the entry.
pub acquire :
    Allocator
    → (bytes size storage descriptor : ℕ) → Result (Unit {0}) Error × Heap
    → Result ℕ Error × Heap
acquire env bytes size storage descriptor (err e, h) = (err e, h)
acquire env bytes size storage descriptor (ok _, h) = elim (env.zeroed size) [
  | none ↦ (err allocation, h)
  | some address ↦ (
    ok address,
    record h {
      allocations =
          h.allocations
          ++ record {
            address = address;
            size = size;
            bytes = bytes;
            descriptor = descriptor;
            marked = false;
            content = replicate bytes 0;
          }
            ∷ [];
      storage = storage;
      allocated = h.allocated + bytes;
      sorted = false;
    },
  )
]

-- `width` is the size of a registry entry.
module _ (width : ℕ) where
  pub usage : Heap → Usage
  usage h = record {
    allocated = h.allocated;
    storage = h.storage;
    metadata = h.capacity * width;
    objects = length h.allocations;
  }

  pub set_limit : ℕ → Heap → Result (Unit {0}) Error × Heap
  set_limit top h = elim (checked_add usize_max h.storage (h.capacity * width)) [
    | none ↦ (err overflow, h)
    | some used ↦ if ltb top used then (err limit, h) else (ok tt, record h { limit = top })
  ]

  -- The growth of the registry from `capacity` entries, of which `available` may be used.
  pub grow : Allocator → ℕ → Heap → Result (Unit {0}) Error × Heap
  grow env available h = elim (checked_add usize_max h.capacity 1) [
    | none ↦ (err overflow, h)
    | some required ↦
        if ltb available required
        then (err limit, h)
        else elim (env.reserve_exact
            (min (max (min usize_max (h.capacity + max (h.capacity / 2) 4)) required) available)) [
              | none ↦ (err allocation, h)
              | some capacity ↦
                  if ltb available capacity
                  then (err limit, record h { capacity = capacity })
                  else (ok tt, record h { capacity = capacity })
            ]
  ]

  pub reserve_registration : Allocator → ℕ → Heap → Result (Unit {0}) Error × Heap
  reserve_registration env storage h =
      if ltb h.limit storage
      then (err limit, h)
      else if ltb ((h.limit - storage) / width) h.capacity
      then (err limit, h)
      else if length h.allocations == h.capacity
      then grow env ((h.limit - storage) / width) h
      else (ok tt, h)

  pub allocate : Allocator → ℕ → ℕ → Heap → Result ℕ Error × Heap
  allocate env requested descriptor h =
      let bytes = max requested 1 in
      elim (padded bytes) [
        | none ↦ (err overflow, h)
        | some size ↦ elim (checked_add usize_max h.storage size) [
          | none ↦ (err overflow, h)
          | some storage ↦
              acquire env bytes size storage descriptor (reserve_registration env storage h)
        ]
      ]

-- `sort_unstable_by_key` on the address. No two allocations have one address.
pub insert_sorted : Allocation → List Allocation → List Allocation
insert_sorted x [] = x ∷ []
insert_sorted x (y ∷ ys) = if ltb x.address y.address then x ∷ y ∷ ys else y ∷ insert_sorted x ys

pub sort : List Allocation → List Allocation
unfolding insert_sorted
sort [] = []
sort (x ∷ xs) = insert_sorted x (sort xs)

pub ensure_sorted : Heap → Heap
unfolding sort
ensure_sorted h =
    if h.sorted then h else record h { allocations = sort h.allocations; sorted = true }

-- `partition_point` of the entries that begin at or below the address.
pub partition_point : ℕ → List Allocation → ℕ
partition_point address [] = 0
partition_point address (x ∷ xs) =
    if leb x.address address then suc (partition_point address xs) else 0

-- The entry of the index, if the address lies within it.
pub within : ℕ → ℕ → Option Allocation → Result (ℕ × Allocation) Error
within address i none = err invalid_reference
within address i (some x) =
    if leb x.bytes (address - x.address) then err invalid_reference else ok (i, x)

-- The index of the owning entry in the sorted registry, with the entry.
pub locate : ℕ → List Allocation → Result (ℕ × Allocation) Error
unfolding partition_point within
locate address xs =
    let point = partition_point address xs in
    if point == 0
    then err invalid_reference
    else within address (point - 1) (get_elem? xs (point - 1))

pub index : ℕ → Heap → Result (ℕ × Allocation) Error × Heap
unfolding locate ensure_sorted
index address h = let h' = ensure_sorted h in (locate address h'.allocations, h')

pub block : ℕ → Heap → Result Block Error × Heap
block address h =
    let (found, h') = index address h in
    elim found [ err e ↦ (err e, h') | ok (i, x) ↦ (ok (block_of x), h') ]

pub mark : ℕ → Heap → Result (Option Block) Error × Heap
mark address h =
    let (found, h') = index address h in
    elim found [
      | err e ↦ (err e, h')
      | ok (i, x) ↦ if x.marked then (ok none, h') else (
        ok (some (block_of x)),
        record h' { allocations = set h'.allocations i (record x { marked = true }) },
      )
    ]

-- `retain_mut` over the registry: what stays, with its mark cleared; what is released, in order;
-- and the two counts as they fall.
pub retain : List Allocation → (allocated storage : ℕ) → List Allocation × List Block × ℕ × ℕ
retain [] allocated storage = ([], [], allocated, storage)
retain (x ∷ xs) allocated storage = elim x.marked [
  | true ↦
      let (kept, released, a, s) = retain xs allocated storage in
      (record x { marked = false } ∷ kept, released, a, s)
  | false ↦
      let (kept, released, a, s) = retain xs (allocated - x.bytes) (storage - x.size) in
      (kept, block_of x ∷ released, a, s)
]

-- The blocks handed to `release`, and the heap after the sweep.
pub sweep : Heap → List Block × Heap
unfolding retain
sweep h =
    let (kept, released, a, s) = retain h.allocations h.allocated h.storage in
    (released, record h { allocations = kept; allocated = a; storage = s })

-- The checks of `bytes` and `bytes_mut`: the index, and the offset within the entry.
pub extent : ℕ → ℕ → Heap → Result (ℕ × Allocation) Error × Heap
extent address count h =
    let (found, h') = index address h in
    elim found [
      | err e ↦ (err e, h')
      | ok (i, x) ↦ elim (checked_add usize_max (address - x.address) count) [
        | none ↦ (err overflow, h')
        | some end ↦ if ltb x.bytes end then (err invalid_reference, h') else (ok (i, x), h')
      ]
    ]

pub bytes : ℕ → ℕ → Heap → Result (List ℕ) Error × Heap
bytes address count h =
    let (found, h') = extent address count h in
    elim found [
      | err e ↦ (err e, h')
      | ok (i, x) ↦ (ok (take count (drop (address - x.address) x.content)), h')
    ]

-- `bytes_mut` with what a caller does with the slice: it writes the bytes of `source` there.
pub write : ℕ → List ℕ → Heap → Result (Unit {0}) Error × Heap
write address source h =
    let (found, h') = extent address (length source) h in
    elim found [
      | err e ↦ (err e, h')
      | ok (i, x) ↦ (
        ok tt,
        record h' {
          allocations =
              set h'.allocations i
                (record x { content = splice (address - x.address) source x.content });
        },
      )
    ]
