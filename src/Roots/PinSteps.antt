-- ===== src/Roots/PinSteps.antt =====
-- The pin operations of gc_roots.rs keep the invariant.
use mathlib.Core.Path.{subst}
use telora.Common.{
  ℕ, suc, ◌+◌, ◌≤◌, ◌<◌, ◌≡◌, refl, ap, inl, inr, false, some, List, [], ◌∷◌, map, arith,
  Option-cases, length, get_elem?, length-append, length-set, get_elem?-lt, Result, ok, err,
}
use telora.Roots.{
  Root, Pin, Handle, Roots, Error, Grant, pin, pin_generation, pin_slot, get, unpin, pinned,
  rewrite_pins, invalidate_pins, relocate_pin,
}
use telora.Roots.FreeList.{
  FreeList, free_at, Avoids-live, FreeList-set, FreeList-append, length-clear, clear_self,
  FreeList-clear, live_count-set, live_count-append, live_count-clear, live_count-emptied,
  length-emptied, live_count-relocate, FreeList-relocate, invalidated,
}
use telora.Roots.Invariant.{
  IsValid, PinsAged-set, PinsAged-append, PinsAged-clear, PinsAged-relocate, PinsAged-emptied,
  next_generation-IsValid, next_generation-cases,
}

-- A used slot is given the new pin; the counts move by one on either side.
pin_slot-IsValid :
    (grant : Grant) (root : Root) (g : ℕ) (free : List ℕ) (r : Roots)
    → r.free_pins ≡ free
    → g ≤ r.generation
    → IsValid r
    → IsValid (pin_slot grant root g free r).1
unfolding pin_slot
pin_slot-IsValid grant root g (slot ∷ free) r e fresh v =
    let held : FreeList r.pins (slot ∷ free) = subst (FreeList r.pins) e v.free in
    let p : Pin = record { generation = g; root = some root } in
    record {
      stacked = v.stacked;
      aged = v.aged;
      pins_aged = PinsAged-set r.generation r.pins slot p fresh v.pins_aged;
      budget = omega (arith, v.budget, length-set r.pins slot p);
      free = FreeList-set r.pins slot p free held.1 held.2;
      accounted = omega (
        arith,
        ap length e,
        v.accounted,
        length-set r.pins slot p,
        live_count-set r.pins slot g root held.0,
      );
    }
pin_slot-IsValid grant root g [] r e fresh v =
    let p : Pin = record { generation = g; root = some root } in
    let longer = length-append r.pins (p ∷ []) in
    let aged = PinsAged-append r.generation r.pins p fresh v.pins_aged in
    let free = FreeList-append r.pins p r.free_pins v.free in
    let live = live_count-append r.pins g root in
    record {
      stacked = ground arith;
      aged = ground arith;
      pins_aged = ground arith;
      budget = ground arith;
      free = ground arith;
      accounted = ground arith;
    }

pub pin-IsValid :
    (grant : Grant) (root : Root) (r : Roots) → IsValid r → IsValid (pin grant root r).1
unfolding pin pin_generation
pin-IsValid grant root r v = elim (next_generation-cases r) [
  | inl e ↦ rw e v
  | inr e ↦
      let v' =
        subst (λ (p : Result ℕ Error × Roots). IsValid p.1) e (next_generation-IsValid r v) in
      rw e (
        pin_slot-IsValid grant root (r.generation + 1) r.free_pins
          (record r { generation = r.generation + 1 }) refl (omega arith) v')
]

-- A handle that is found names a pin of the vector that holds a root.
pub get-live :
    (h : Handle) (r : Roots) {root : Root}
    → get h r ≡ ok root
    → (h.slot < length r.pins) × (free_at r.pins h.slot ≡ false)
unfolding get pinned
get-live h r e = elim (Option-cases (get_elem? r.pins h.slot)) [
  | inl n ↦ absurd (ground arith)
  | inr (p, n) ↦ (get_elem?-lt r.pins h.slot n, ground arith)
]

pub unpin-IsValid : (h : Handle) (r : Roots) → IsValid r → IsValid (unpin h r).1
unfolding unpin
unpin-IsValid h r v = go (get h r) refl
  where
    go : (res : Result Root Error) → get h r ≡ res → IsValid (unpin h r).1
    go (err x) e = rw (e, unpin) v
    go (ok root) e =
        let (inside, held) = get-live h r e in
        rw (e, unpin)
          record {
            stacked = v.stacked;
            aged = v.aged;
            pins_aged = PinsAged-clear r.generation r.pins h.slot v.pins_aged;
            budget = omega (arith, v.budget, length-clear r.pins h.slot);
            free = (
              clear_self r.pins h.slot inside,
              Avoids-live r.pins h.slot r.free_pins held v.free,
              FreeList-clear r.pins h.slot r.free_pins v.free,
            );
            accounted = omega (
              arith,
              v.accounted,
              length-clear r.pins h.slot,
              live_count-clear r.pins h.slot inside held,
            );
          }

length-relocate : (f : Root → Root) (ps : List Pin) → length (map (relocate_pin f) ps) ≡ length ps
length-relocate f [] = refl
length-relocate f (p ∷ ps) = ap suc (length-relocate f ps)

pub rewrite_pins-IsValid : (f : Root → Root) (r : Roots) → IsValid r → IsValid (rewrite_pins f r)
unfolding rewrite_pins
rewrite_pins-IsValid f r v = record {
  stacked = v.stacked;
  aged = v.aged;
  pins_aged = PinsAged-relocate f r.generation r.pins v.pins_aged;
  budget = omega (arith, v.budget, length-relocate f r.pins);
  free = FreeList-relocate f r.pins r.free_pins v.free;
  accounted = omega (arith, v.accounted, live_count-relocate f r.pins, length-relocate f r.pins);
}

pub invalidate_pins-IsValid : (r : Roots) → IsValid r → IsValid (invalidate_pins r)
unfolding invalidate_pins
invalidate_pins-IsValid r v =
    let (free, all) = invalidated r.pins in
    let same = length-emptied r.pins in
    record {
      stacked = v.stacked;
      aged = v.aged;
      pins_aged = PinsAged-emptied r.generation r.pins v.pins_aged;
      budget = omega (arith, v.budget, same);
      free = free;
      accounted = omega (arith, live_count-emptied r.pins, all, same);
    }
