-- ===== src/Heap/Examples.antt =====
-- Runs of direct_heap.rs on a heap of two blocks and an allocator that hands out address 200.
use telora.Common.{
  ◌≡◌, refl, inl, inr, true, false, none, some, [], ◌∷◌, arith, leb, if◌then◌else◌, ok, err,
}
use telora.Heap.{
  Error, Allocation, Heap, Allocator, block_of, padded, acquire, grow, reserve_registration,
  allocate, insert_sorted, sort, ensure_sorted, partition_point, within, locate, index, block, mark,
  sweep, extent, bytes, write,
}
use telora.Heap.View.{IsSane}
use telora.Heap.Lookup.{Finds, locate-Finds}
use telora.Heap.Invariant.{IsValid, view}
use telora.Heap.Collect.{with_mark, block-view, mark-view}
use telora.Heap.Sweep.{sweep-view}
use telora.Heap.Registry.{Honest, SameObjects}
use telora.Heap.Allocate.{Allocated, allocate-Allocated, allocate_failed}
use telora.Heap.Memory.{Written, write-Written, bytes-write}
use telora.Heap.Collection.{collect, Unmarked, collect-view}

abbrev high : Allocation
high = record {
  address = 64;
  size = 8;
  bytes = 4;
  descriptor = 1;
  marked = false;
  content = 1 ∷ 2 ∷ 3 ∷ 4 ∷ [];
}

abbrev low : Allocation
low = record {
  address = 16;
  size = 8;
  bytes = 3;
  descriptor = 2;
  marked = false;
  content = 5 ∷ 6 ∷ 7 ∷ [];
}

abbrev two_blocks : Heap
two_blocks = record {
  allocations = high ∷ low ∷ [];
  capacity = 4;
  sorted = false;
  allocated = 7;
  storage = 16;
  limit = 1000;
}

high-IsSane : IsSane high
high-IsSane = record { nonempty = omega arith; padding = omega arith; whole = omega arith }

low-IsSane : IsSane low
low-IsSane = record { nonempty = omega arith; padding = omega arith; whole = omega arith }

two_blocks-IsValid : IsValid two_blocks
two_blocks-IsValid = record {
  sane = (high-IsSane, (low-IsSane, tt));
  disjoint = ((inr (omega arith), tt), (tt, tt));
  in_order = λ e. absurd (cc e);
  bytes_total = refl;
  size_total = refl;
  registered = omega arith;
}

two_blocks-Unmarked : Unmarked two_blocks
two_blocks-Unmarked = (refl, (refl, tt))

locate-Finds_example : Finds 65 (low ∷ high ∷ []) (locate 65 (low ∷ high ∷ []))
locate-Finds_example =
    locate-Finds 65 (low ∷ high ∷ []) (low-IsSane, (high-IsSane, tt)) ((omega arith, tt), (tt, tt))

block-view_example : (block 18 two_blocks).0 ≡ ok (block_of low)
block-view_example = block-view 18 two_blocks two_blocks-IsValid

mark-view_example :
    let (answer, h') = mark 66 two_blocks in
    IsValid h' × (answer ≡ ok (some (block_of high))) × (view h' 64 ≡ some (with_mark high true))
mark-view_example = mark-view 66 64 two_blocks two_blocks-IsValid

sweep-view_example :
    let (released, h') = sweep two_blocks in
    IsValid h' × (released ≡ block_of high ∷ block_of low ∷ []) × (view h' 64 ≡ none)
sweep-view_example = sweep-view two_blocks 64 two_blocks-IsValid

collect-view_example :
    IsValid (collect (17 ∷ []) two_blocks).1 × (view (collect (17 ∷ []) two_blocks).1 16 ≡ some low)
collect-view_example = collect-view (17 ∷ []) 16 two_blocks two_blocks-IsValid two_blocks-Unmarked

abbrev env : Allocator
env = record {
  zeroed = λ size. if leb size 64 then some 200 else none;
  reserve_exact = λ target. some target;
}

env-Honest : Honest env two_blocks
env-Honest = record {
  apart = λ size a e. (inl (ground arith), (inl (ground arith), tt));
  enough = λ target c e. ground arith;
}

abbrev grown : Heap
grown = (allocate 24 env 5 9 two_blocks).1

allocated_block : allocate 24 env 5 9 two_blocks ≡ (ok 200, grown)
unfolding allocate reserve_registration grow padded acquire
allocated_block = refl

allocate-Allocated_example : Allocated 24 two_blocks 5 9 200 grown
allocate-Allocated_example =
    allocate-Allocated 24 env 5 9 200 two_blocks grown two_blocks-IsValid env-Honest allocated_block

refused_block : allocate 24 env 65 9 two_blocks ≡ (err Error.allocation, two_blocks)
unfolding allocate reserve_registration grow padded acquire
refused_block = refl

allocate_failed_example : SameObjects two_blocks two_blocks × IsValid two_blocks
allocate_failed_example =
    allocate_failed 24 env 65 9 Error.allocation two_blocks two_blocks two_blocks-IsValid env-Honest
      refused_block

abbrev written_heap : Heap
written_heap = (write 65 (8 ∷ 9 ∷ []) two_blocks).1

written_middle : write 65 (8 ∷ 9 ∷ []) two_blocks ≡ (ok tt, written_heap)
unfolding write extent index locate ensure_sorted sort insert_sorted partition_point within
written_middle = refl

write-Written_example : Written 65 (8 ∷ 9 ∷ []) two_blocks written_heap
write-Written_example =
    write-Written 65 (8 ∷ 9 ∷ []) two_blocks written_heap two_blocks-IsValid written_middle

bytes-write_example : (bytes 65 2 written_heap).0 ≡ ok (8 ∷ 9 ∷ [])
bytes-write_example =
    bytes-write 65 (8 ∷ 9 ∷ []) two_blocks written_heap two_blocks-IsValid written_middle
