-- ===== src/Roots/Held.antt =====
-- A pin of gc_roots.rs keeps its root until its own handle releases it.
use mathlib.Core.Path.{subst}
use mathlib.Core.List.{Mem, mem-cons_self, mem-cons_of_mem}
use telora.Common.{
  ℕ, zero, suc, ◌+◌, ◌≡◌, refl, sym, ap, ◌∙◌, ◌≢◌, inl, inr, true, Option, some, List, [], ◌∷◌,
  ◌++◌, map, arith, ◌==◌, ==→eq, Bool-cases, Option-cases, length, get_elem?, set, All,
  get_elem?-set_self, get_elem?-append_last, Result, ok,
}
use telora.Roots.{
  Root, Pin, Handle, Roots, Error, Grant, pin, pin_generation, pin_slot, pinned, get, unpin, clear,
  iter, present, non_null,
}
use telora.Roots.FreeList.{FreeList, free_at, free_at-lt}
use telora.Roots.Invariant.{IsValid, next_generation-cases}
use telora.Roots.PinSteps.{pin-IsValid}
use telora.Roots.KeepsPins.{
  KeepsPins, enter-KeepsPins, set_slot-KeepsPins, leave-KeepsPins, tail-KeepsPins,
}
use telora.Roots.History.{
  Call, enters, sets, leaves, tails, pins, unpins, rewrites, invalidates, step, run, run_keeps,
}

-- The calls that the owner of the handle leaves out: releasing it, and the two that act on all pins.
abbrev pub Harmless : Handle → Call → Type 0
Harmless h (unpins u) = ¬ (u ≡ h)
Harmless h (rewrites f) = ⊥
Harmless h invalidates = ⊥
Harmless h _ = Unit {0}

set_held :
    (ps : List Pin) (i slot gen : ℕ) (p : Pin) {root : Root}
    → free_at ps i ≡ true
    → pinned (get_elem? ps slot) gen ≡ some root
    → pinned (get_elem? (set ps i p) slot) gen ≡ some root
unfolding pinned
set_held [] i slot gen p f e = e
set_held (q ∷ ps) zero zero gen p f e = absurd (ground arith)
set_held (q ∷ ps) zero (suc slot) gen p f e = e
set_held (q ∷ ps) (suc i) zero gen p f e = e
set_held (q ∷ ps) (suc i) (suc slot) gen p f e = set_held ps i slot gen p f e

append_held :
    (ps : List Pin) (slot gen : ℕ) (p : Pin) {root : Root}
    → pinned (get_elem? ps slot) gen ≡ some root
    → pinned (get_elem? (ps ++ p ∷ []) slot) gen ≡ some root
unfolding pinned
append_held [] slot gen p e = cc
append_held (q ∷ ps) zero gen p e = e
append_held (q ∷ ps) (suc slot) gen p e = append_held ps slot gen p e

clear_held :
    (ps : List Pin) (i slot gen : ℕ) {root : Root}
    → i ≢ slot
    → pinned (get_elem? ps slot) gen ≡ some root
    → pinned (get_elem? (clear ps i) slot) gen ≡ some root
unfolding pinned clear
clear_held [] i slot gen ne e = e
clear_held (q ∷ ps) zero zero gen ne e = absurd (ne refl)
clear_held (q ∷ ps) zero (suc slot) gen ne e = e
clear_held (q ∷ ps) (suc i) zero gen ne e = e
clear_held (q ∷ ps) (suc i) (suc slot) gen ne e =
    clear_held ps i slot gen (λ (s : i ≡ slot). ne (ap suc s)) e

abbrev Held : Handle → Root → Roots → Type 0
Held h root r = pinned (get_elem? r.pins h.slot) h.generation ≡ some root

KeepsPins-Held :
    (h : Handle) (root : Root) (r s : Roots) → KeepsPins r s → Held h root r → Held h root s
KeepsPins-Held h root r s k e =
    ap (λ (ps : List Pin). pinned (get_elem? ps h.slot) h.generation) k.same_pins ∙ e

pin-Held :
    (grant : Grant) (new : Root) (h : Handle) (root : Root) (r : Roots)
    → IsValid r
    → Held h root r
    → Held h root (pin grant new r).1
unfolding pin pin_generation
pin-Held grant new h root r v e = elim (next_generation-cases r) [
  | inl n ↦ rw n e
  | inr n ↦ rw n (slots r.free_pins v.free)
]
  where
    slots :
        (free : List ℕ)
        → FreeList r.pins free
        → Held h root
            (pin_slot grant new
              (r.generation + 1)
              free
              (record r { generation = r.generation + 1 })).1
    slots (i ∷ free) f =
        unfold pin_slot in
        set_held r.pins i h.slot h.generation
          (record { generation = r.generation + 1; root = some new }) f.0 e
    slots [] f =
        let kept =
          append_held r.pins h.slot h.generation
            (record { generation = r.generation + 1; root = some new }) e in
        unfold pin_slot in ground arith

-- Two handles that both find a pin in one slot are the same handle.
unpin-Held :
    (u h : Handle) (root : Root) (r : Roots) → ¬ (u ≡ h) → Held h root r → Held h root (unpin u r).1
unfolding unpin get
unpin-Held u h root r ne e = elim (Option-cases (pinned (get_elem? r.pins u.slot) u.generation)) [
  | inl n ↦ rw (n, unpin, get) e
  | inr (x, n) ↦
      rw (n, unpin, get)
        (clear_held r.pins u.slot h.slot h.generation (λ (s : u.slot ≡ h.slot). ne (same s n)) e)
]
  where
    same :
        {x : Root}
        → u.slot ≡ h.slot
        → pinned (get_elem? r.pins u.slot) u.generation ≡ some x
        → u ≡ h
    same s n = unfold pinned in ground (arith, ap (get_elem? r.pins) s)

step-Held :
    (h : Handle) (root : Root) (c : Call) (r : Roots)
    → Harmless h c
    → IsValid r
    → Held h root r
    → Held h root (step c r)
unfolding step
step-Held h root (enters grant count) r fine v e =
    KeepsPins-Held h root r _ (enter-KeepsPins grant count r) e
step-Held h root (sets f slot x) r fine v e =
    KeepsPins-Held h root r _ (set_slot-KeepsPins f slot x r) e
step-Held h root (leaves f) r fine v e = KeepsPins-Held h root r _ (leave-KeepsPins f r) e
step-Held h root (tails grant f transfer) r fine v e =
    KeepsPins-Held h root r _ (tail-KeepsPins grant f transfer r) e
step-Held h root (pins grant new) r fine v e = pin-Held grant new h root r v e
step-Held h root (unpins u) r fine v e = unpin-Held u h root r fine e
step-Held h root (rewrites f) r fine v e = absurd fine
step-Held h root invalidates r fine v e = absurd fine

pin_slot-get :
    (grant : Grant) (root : Root) (g : ℕ) (free : List ℕ) (r s : Roots) (h : Handle)
    → FreeList r.pins free
    → pin_slot grant root g free r ≡ (ok h, s)
    → Held h root s
unfolding pin_slot pinned
pin_slot-get grant root g (i ∷ free) r s h f e =
    let p : Pin = record { generation = g; root = some root } in
    ground (arith, get_elem?-set_self r.pins i p (free_at-lt r.pins i f.0))
pin_slot-get grant root g [] r s h f e =
    let p : Pin = record { generation = g; root = some root } in
    ground (arith, get_elem?-append_last r.pins p (length r.pins) refl)

-- The handle that `pin` returns finds the root that was pinned.
pin-get :
    (grant : Grant) (root : Root) (r s : Roots) (h : Handle)
    → IsValid r
    → pin grant root r ≡ (ok h, s)
    → Held h root s
unfolding pin pin_generation
pin-get grant root r s h v e = elim (next_generation-cases r) [
  | inl n ↦ absurd (cc n)
  | inr n ↦
      pin_slot-get grant root (r.generation + 1) r.free_pins
        (record r { generation = r.generation + 1 }) s h v.free
        (sym (ap (pin_generation grant root) n) ∙ e)
]

present-here :
    (root : Root) (ss : List (Option Root))
    → root.reference ≢ 0
    → Mem root (present (some root ∷ ss))
unfolding present
present-here root ss ne = elim (Bool-cases (root.reference == 0)) [
  | inl z ↦ absurd (ne (==→eq root.reference 0 z))
  | inr z ↦ rw (z, present, non_null) mem-cons_self
]

present-cons :
    (root : Root) (s : Option Root) (ss : List (Option Root))
    → Mem root (present ss)
    → Mem root (present (s ∷ ss))
unfolding present
present-cons root s ss m = elim (Option-cases (non_null s)) [
  | inl n ↦ rw (n, present) m
  | inr (x, n) ↦ rw (n, present) (mem-cons_of_mem x m)
]

present-append :
    (root : Root) (xs ys : List (Option Root))
    → Mem root (present ys)
    → Mem root (present (xs ++ ys))
present-append root [] ys m = m
present-append root (x ∷ xs) ys m = present-cons root x (xs ++ ys) (present-append root xs ys m)

present-pinned :
    (ps : List Pin) (i : ℕ) (g : ℕ) (root : Root)
    → root.reference ≢ 0
    → pinned (get_elem? ps i) g ≡ some root
    → Mem root (present (map (λ p. p.root) ps))
unfolding pinned
present-pinned [] i g root ne e = cc
present-pinned (p ∷ ps) zero g root ne e =
    let here : p.root ≡ some root = ground arith in
    rw here (present-here root (map (λ p. p.root) ps) ne)
present-pinned (p ∷ ps) (suc i) g root ne e =
    present-cons root p.root (map (λ p. p.root) ps) (present-pinned ps i g root ne e)

-- What `pin` returned in a valid state stays good through any history that neither releases it nor
-- acts on all pins:
-- `get` answers the pinned root, and a collection scans it unless its reference is null.
pub pin_held :
    (grant : Grant) (root : Root) (r s : Roots) (h : Handle) (cs : List Call)
    → IsValid r
    → pin grant root r ≡ (ok h, s)
    → All (Harmless h) cs
    → (get h (run cs s) ≡ ok root) × (root.reference ≢ 0 → Mem root (iter (run cs s)))
unfolding get iter
pin_held grant root r s h cs v e fine =
    let valid : IsValid s =
      subst (λ (p : Result Handle Error × Roots). IsValid p.1) e (pin-IsValid grant root r v) in
    let held =
      run_keeps (Held h root) (Harmless h) (step-Held h root) cs s fine valid
        (pin-get grant root r s h v e) in
    (
      rw held,
      λ ne.
          present-append root (run cs s).slots _
            (present-pinned (run cs s).pins h.slot h.generation root ne held),
    )
