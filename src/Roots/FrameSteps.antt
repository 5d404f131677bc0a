-- ===== src/Roots/FrameSteps.antt =====
-- The frame operations of gc_roots.rs keep the invariant.
use mathlib.Core.Path.{subst}
use telora.Common.{
  ℕ, suc, ◌+◌, ◌≤◌, ◌≡◌, refl, ap, inl, inr, true, Option, none, some, List, [], ◌∷◌, map, arith,
  Bool-cases, length, take, replicate, length-append, length-set, length-take, length-replicate,
}
use telora.Roots.{
  frame_eq, next_generation, non_null, Root, Frame, Roots, Grant, enter, enter_frame, is_current,
  set_slot, leave, pop_frame, tail, tail_frame,
}
use telora.Roots.Invariant.{Stacked, Aged, IsValid, Aged-mono, PinsAged-mono}

enter_frame-IsValid :
    (r : Roots) (count : ℕ)
    → length r.slots + count + length r.pins + (length r.frames + 1) ≤ r.limit
    → IsValid r
    → IsValid (enter_frame count (next_generation r)).1
unfolding enter_frame next_generation
enter_frame-IsValid r count room v =
    let slots = length-append r.slots (replicate count none) in
    let added = length-replicate {A = Option Root} count none in
    record {
      stacked = ground (arith, slots, added);
      aged = ground (arith, Aged-mono (suc r.generation) (r.generation + 1) r.frames);
      pins_aged = ground (arith, PinsAged-mono r.generation (r.generation + 1) r.pins);
      budget = ground (arith, slots, added);
      free = ground arith;
      accounted = ground arith;
    }

pub enter-IsValid :
    (grant : Grant) (count : ℕ) (r : Roots) → IsValid r → IsValid (enter grant count r).1
unfolding enter
enter-IsValid grant count r v = ground (arith, enter_frame-IsValid r count)

pub set_slot-IsValid :
    (f : Frame) (slot : ℕ) (root : Option Root) (r : Roots)
    → IsValid r
    → IsValid (set_slot f slot root r).1
unfolding set_slot
set_slot-IsValid f slot root r v =
    ground (arith, length-set r.slots (f.base + slot) (non_null root))

-- The innermost frame is the one that the check compares with.
pub current_top : (f : Frame) (fs : List Frame) → is_current f fs ≡ true → fs ≡ f ∷ pop_frame fs
unfolding is_current frame_eq pop_frame
current_top f [] h = cc
current_top f (g ∷ gs) h = ground arith

pub leave-IsValid_top :
    (f : Frame) (fs : List Frame) (r : Roots)
    → r.frames ≡ f ∷ fs
    → IsValid r
    → IsValid (record r { slots = take f.base r.slots; frames = fs })
leave-IsValid_top f fs r e v =
    let cut = length-take f.base r.slots in
    let whole : Stacked (f ∷ fs) (length r.slots) =
      subst (λ (l : List Frame). Stacked l (length r.slots)) e v.stacked in
    let old : Aged (suc r.generation) (f ∷ fs) = subst (Aged (suc r.generation)) e v.aged in
    let kept : length (take f.base r.slots) ≡ f.base = omega (arith, cut) in
    record {
      stacked = rw kept whole.1;
      aged = Aged-mono f.generation (suc r.generation) fs (omega arith) old.1;
      pins_aged = v.pins_aged;
      budget = omega (arith, ap length e, v.budget);
      free = v.free;
      accounted = v.accounted;
    }

pub leave-IsValid : (f : Frame) (r : Roots) → IsValid r → IsValid (leave f r).1
unfolding leave
leave-IsValid f r v = elim (Bool-cases (is_current f r.frames)) [
  | inl e ↦ rw e (leave-IsValid_top f (pop_frame r.frames) r (current_top f r.frames e) v)
  | inr e ↦ rw e v
]

length-some : (roots : List Root) → length (map some roots) ≡ length roots
length-some [] = refl
length-some (x ∷ xs) = ap suc (length-some xs)

tail_frame-IsValid :
    (f : Frame) (transfer : List Root) (r : Roots)
    → is_current f r.frames ≡ true
    → f.base + length transfer + length r.pins + length r.frames ≤ r.limit
    → IsValid r
    → IsValid (tail_frame f transfer (next_generation r)).1
unfolding tail_frame next_generation
tail_frame-IsValid f transfer r e room v =
    let top = current_top f r.frames e in
    let left = leave-IsValid_top f (pop_frame r.frames) r top v in
    let cut = length-take f.base r.slots in
    let slots = length-append (take f.base r.slots) (map some transfer) in
    let moved = length-some transfer in
    let whole : Stacked (f ∷ pop_frame r.frames) (length r.slots) =
      subst (λ (l : List Frame). Stacked l (length r.slots)) top v.stacked in
    let kept : length (take f.base r.slots) ≡ f.base = omega (arith, cut) in
    let fewer : length r.frames ≡ suc (length (pop_frame r.frames)) = ap length top in
    record {
      stacked = ground arith;
      aged = ground (arith, Aged-mono (suc r.generation) (r.generation + 1) (pop_frame r.frames));
      pins_aged = ground (arith, PinsAged-mono r.generation (r.generation + 1) r.pins);
      budget = ground (arith, slots, moved);
      free = ground arith;
      accounted = ground arith;
    }

pub tail-IsValid :
    (grant : Grant) (f : Frame) (transfer : List Root) (r : Roots)
    → IsValid r
    → IsValid (tail grant f transfer r).1
unfolding tail
tail-IsValid grant f transfer r v = ground (arith, tail_frame-IsValid f transfer r)
