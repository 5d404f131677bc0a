-- ===== src/Roots/Handles.antt =====
-- What a handle of gc_roots.rs is worth over a history: a live pin keeps its root, and a handle
-- that was released is refused for ever.
use telora.Common.{
  ℕ, zero, suc, ◌+◌, ◌≤◌, ◌≡◌, refl, ap, ◌∙◌, ◌≢◌, inl, inr, Option, none, some, List, [], ◌∷◌,
  ◌++◌, map, arith, Option-cases, get_elem?, set, ok, err,
}
use telora.Roots.{
  Root, Pin, Handle, Roots, stale_handle, Grant, pin, pin_generation, pin_slot, pinned, get, unpin,
  clear, relocate_pin, rewrite_pins, invalidate_pins,
}
use telora.Roots.FreeList.{emptied}
use telora.Roots.Invariant.{IsValid, PinsAged, next_generation-cases}
use telora.Roots.KeepsPins.{
  KeepsPins, enter-KeepsPins, set_slot-KeepsPins, leave-KeepsPins, tail-KeepsPins,
}
use telora.Roots.History.{
  Call, enters, sets, leaves, tails, pins, unpins, rewrites, invalidates, step, run,
}

abbrev pub pinned_at : List Pin → Handle → Option Root
pinned_at ps h = pinned (get_elem? ps h.slot) h.generation

set-none :
    (ps : List Pin) (i g slot gen : ℕ) (root : Root)
    → g ≢ gen
    → pinned (get_elem? ps slot) gen ≡ none
    → pinned (get_elem? (set ps i (record { generation = g; root = some root })) slot) gen ≡ none
unfolding pinned
set-none [] i g slot gen root ne e = refl
set-none (p ∷ ps) zero g zero gen root ne e = ground arith
set-none (p ∷ ps) zero g (suc slot) gen root ne e = e
set-none (p ∷ ps) (suc i) g zero gen root ne e = e
set-none (p ∷ ps) (suc i) g (suc slot) gen root ne e = set-none ps i g slot gen root ne e

append_none :
    (ps : List Pin) (g slot gen : ℕ) (root : Root)
    → g ≢ gen
    → pinned (get_elem? ps slot) gen ≡ none
    → pinned (get_elem? (ps ++ record { generation = g; root = some root } ∷ []) slot) gen ≡ none
unfolding pinned
append_none [] g zero gen root ne e = ground arith
append_none [] g (suc slot) gen root ne e = refl
append_none (p ∷ ps) g zero gen root ne e = e
append_none (p ∷ ps) g (suc slot) gen root ne e = append_none ps g slot gen root ne e

clear-none :
    (ps : List Pin) (i slot gen : ℕ)
    → pinned (get_elem? ps slot) gen ≡ none
    → pinned (get_elem? (clear ps i) slot) gen ≡ none
unfolding pinned clear
clear-none [] i slot gen e = refl
clear-none (p ∷ ps) zero zero gen e = ground arith
clear-none (p ∷ ps) zero (suc slot) gen e = e
clear-none (p ∷ ps) (suc i) zero gen e = e
clear-none (p ∷ ps) (suc i) (suc slot) gen e = clear-none ps i slot gen e

clear_gone : (ps : List Pin) (slot gen : ℕ) → pinned (get_elem? (clear ps slot) slot) gen ≡ none
unfolding pinned clear
clear_gone [] slot gen = refl
clear_gone (p ∷ ps) zero gen = ground arith
clear_gone (p ∷ ps) (suc slot) gen = clear_gone ps slot gen

emptied-none : (ps : List Pin) (slot gen : ℕ) → pinned (get_elem? (emptied ps) slot) gen ≡ none
unfolding pinned
emptied-none [] slot gen = refl
emptied-none (p ∷ ps) zero gen = ground arith
emptied-none (p ∷ ps) (suc slot) gen = emptied-none ps slot gen

relocate_none :
    (f : Root → Root) (ps : List Pin) (slot gen : ℕ)
    → pinned (get_elem? ps slot) gen ≡ none
    → pinned (get_elem? (map (relocate_pin f) ps) slot) gen ≡ none
unfolding pinned relocate_pin
relocate_none f [] slot gen e = refl
relocate_none f (p ∷ ps) zero gen e = ground arith
relocate_none f (p ∷ ps) (suc slot) gen e = relocate_none f ps slot gen e

-- A handle that no pin answers to, and whose generation is used up.
pub record Gone (h : Handle) (r : Roots) : Type 0 where
  pub used : h.generation ≤ r.generation
  pub unanswered : pinned_at r.pins h ≡ none

pin-Gone :
    (grant : Grant) (root : Root) (h : Handle) (r : Roots) → Gone h r → Gone h (pin grant root r).1
unfolding pin pin_generation
pin-Gone grant root h r g = elim (next_generation-cases r) [
  | inl e ↦ rw e g
  | inr e ↦ rw e (slots r.free_pins)
]
  where
    slots :
        (free : List ℕ)
        → Gone h
            (pin_slot grant root
              (r.generation + 1)
              free
              (record r { generation = r.generation + 1 })).1
    slots (i ∷ free) =
        unfold pin_slot in
        record {
          used = omega (arith, g.used);
          unanswered =
              set-none r.pins i (r.generation + 1) h.slot h.generation root (omega (arith, g.used))
                g.unanswered;
        }
    slots [] =
        let added =
          append_none r.pins (r.generation + 1) h.slot h.generation root (omega (arith, g.used))
            g.unanswered in
        unfold pin_slot in record { used = ground arith; unanswered = ground arith }

unpin-Gone : (u h : Handle) (r : Roots) → Gone h r → Gone h (unpin u r).1
unfolding unpin
unpin-Gone u h r g = record {
  used = ground arith;
  unanswered = ground (arith, clear-none r.pins u.slot h.slot h.generation g.unanswered);
}

KeepsPins-Gone : (h : Handle) (r s : Roots) → KeepsPins r s → Gone h r → Gone h s
KeepsPins-Gone h r s k g = record {
  used = omega (arith, k.later, g.used);
  unanswered = ap (λ (ps : List Pin). pinned_at ps h) k.same_pins ∙ g.unanswered;
}

step-Gone : (h : Handle) (c : Call) (r : Roots) → Gone h r → Gone h (step c r)
unfolding step
step-Gone h (enters grant count) r g = KeepsPins-Gone h r _ (enter-KeepsPins grant count r) g
step-Gone h (sets f slot root) r g = KeepsPins-Gone h r _ (set_slot-KeepsPins f slot root r) g
step-Gone h (leaves f) r g = KeepsPins-Gone h r _ (leave-KeepsPins f r) g
step-Gone h (tails grant f transfer) r g =
    KeepsPins-Gone h r _ (tail-KeepsPins grant f transfer r) g
step-Gone h (pins grant root) r g = pin-Gone grant root h r g
step-Gone h (unpins u) r g = unpin-Gone u h r g
step-Gone h (rewrites f) r g =
    unfold rewrite_pins in
    record { used = g.used; unanswered = relocate_none f r.pins h.slot h.generation g.unanswered }
step-Gone h invalidates r g =
    unfold invalidate_pins in
    record { used = g.used; unanswered = emptied-none r.pins h.slot h.generation }

run-Gone : (h : Handle) (cs : List Call) (r : Roots) → Gone h r → Gone h (run cs r)
unfolding run
run-Gone h [] r g = g
run-Gone h (c ∷ cs) r g = run-Gone h cs (step c r) (step-Gone h c r g)

Gone-get : (h : Handle) (r : Roots) → Gone h r → get h r ≡ err stale_handle
unfolding get
Gone-get h r g = rw g.unanswered

PinsAged-at :
    (g : ℕ) (ps : List Pin) (i : ℕ) (p : Pin)
    → PinsAged g ps
    → get_elem? ps i ≡ some p
    → p.generation ≤ g
PinsAged-at g [] i p a e = cc
PinsAged-at g (q ∷ ps) zero p a e = ground arith
PinsAged-at g (q ∷ ps) (suc i) p a e = PinsAged-at g ps i p a.1 e

unpinned-Gone :
    (h : Handle) (r s : Roots) (root : Root) → IsValid r → unpin h r ≡ (ok root, s) → Gone h s
unfolding unpin get pinned
unpinned-Gone h r s root v e = elim (Option-cases (get_elem? r.pins h.slot)) [
  | inl n ↦ absurd (ground arith)
  | inr (p, n) ↦ record {
    used = ground (arith, PinsAged-at r.generation r.pins h.slot p v.pins_aged n);
    unanswered = ground (arith, clear_gone r.pins h.slot h.generation);
  }
]

-- A handle is good for one `unpin`: after it succeeds in a valid state, every `get` and `unpin` of it answers `StaleHandle`,
-- through any history of calls, though its slot is given to other pins.
pub unpin_once :
    (h : Handle) (r s : Roots) (root : Root) (cs : List Call)
    → IsValid r
    → unpin h r ≡ (ok root, s)
    → (get h (run cs s) ≡ err stale_handle) × (unpin h (run cs s) ≡ (err stale_handle, run cs s))
unfolding unpin
unpin_once h r s root cs v e =
    let g = Gone-get h (run cs s) (run-Gone h cs s (unpinned-Gone h r s root v e)) in
    (g, rw (g, unpin))
