-- ===== src/Roots/FrameHistory.antt =====
-- The frame discipline of gc_roots.rs over a history: what lies under a frame cannot change while
-- the frame stands, and a frame that was left is not accepted again.
use mathlib.Core.Path.{subst}
use telora.Common.{
  ℕ, suc, ◌≡◌, refl, sym, ap, ◌≢◌, inl, inr, true, false, Option, none, some, List, [], ◌∷◌, map,
  arith, leb, Bool-cases, length, replicate, All, length-take, length-replicate, take-append,
  Result, ok, err,
}
use telora.Roots.{
  Root, Frame, Roots, Error, invalid_frame, Grant, next_generation, enter, enter_frame, is_current,
  frame_eq, set_slot, leave, pop_frame, tail, tail_frame, rewrite_pins, invalidate_pins, non_null,
}
use telora.Roots.Invariant.{IsValid, Aged, next_generation-cases}
use telora.Roots.FrameSteps.{enter-IsValid, leave-IsValid, current_top, leave-IsValid_top}
use telora.Roots.Lifo.{
  Above, Dead, Standing, Under, KeepsFrames-Under, pin-KeepsFrames, unpin-KeepsFrames, popped,
  pushed-Under, popped-Under, written-Under, Aged-absent,
}
use telora.Roots.History.{
  Call, enters, sets, leaves, tails, pins, unpins, rewrites, invalidates, step, run, step-IsValid,
}

module _ (f : Frame) (fs : List Frame) (ss : List (Option Root)) (r : Roots) (v : IsValid r) where
  entered-Under :
      (count : ℕ) → Under f fs ss r → Under f fs ss (enter_frame count (next_generation r)).1
  unfolding enter_frame
  entered-Under count u = elim (next_generation-cases r) [
    | inl e ↦ rw (e, enter_frame) u
    | inr e ↦ rw (e, enter_frame) (pushed-Under f fs ss r v _ (replicate count none) refl u)
  ]

  enter-Under :
      (grant : Grant) (count : ℕ) → Under f fs ss r → Under f fs ss (enter grant count r).1
  unfolding enter
  enter-Under grant count u = ground (arith, entered-Under count u)

  set_slot-Under :
      (g : Frame) (slot : ℕ) (root : Option Root)
      → Under f fs ss r
      → Under f fs ss (set_slot g slot root r).1
  unfolding set_slot
  set_slot-Under g slot root u = elim (Bool-cases (is_current g r.frames)) [
    | inr e ↦ rw (e, set_slot) u
    | inl e ↦ elim (Bool-cases (leb g.count slot)) [
      | inl big ↦ rw (e, big, set_slot) u
      | inr fits ↦
          rw (e, fits, set_slot)
            (written-Under f fs ss r v g (pop_frame r.frames) slot (non_null root)
              (current_top g r.frames e) u)
    ]
  ]

  leave-Under : (g : Frame) → Under f fs ss r → Under f fs ss (leave g r).1
  unfolding leave
  leave-Under g u = elim (Bool-cases (is_current g r.frames)) [
    | inr e ↦ rw (e, leave) u
    | inl e ↦
        rw (e, leave) (popped-Under f fs ss r v g (pop_frame r.frames) (current_top g r.frames e) u)
  ]

  tailed-Under :
      (g : Frame) (transfer : List Root)
      → is_current g r.frames ≡ true
      → Under f fs ss r
      → Under f fs ss (tail_frame g transfer (next_generation r)).1
  unfolding tail_frame
  tailed-Under g transfer e u = elim (next_generation-cases r) [
    | inl n ↦ rw (n, tail_frame) u
    | inr n ↦
        let top = current_top g r.frames e in
        let rest : Roots = popped g (pop_frame r.frames) r in
        rw (n, tail_frame)
          (pushed-Under f fs ss rest (leave-IsValid_top g (pop_frame r.frames) r top v) _
            (map some transfer) refl (popped-Under f fs ss r v g (pop_frame r.frames) top u))
  ]

  tail-Under :
      (grant : Grant) (g : Frame) (transfer : List Root)
      → Under f fs ss r
      → Under f fs ss (tail grant g transfer r).1
  unfolding tail
  tail-Under grant g transfer u = elim (Bool-cases (is_current g r.frames)) [
    | inr e ↦ rw (e, tail) u
    | inl e ↦ let whole = tailed-Under g transfer e u in ground (arith, whole)
  ]

step-Under :
    (f : Frame) (fs : List Frame) (ss : List (Option Root)) (c : Call) (r : Roots)
    → Unit {0}
    → IsValid r
    → Under f fs ss r
    → Under f fs ss (step c r)
unfolding step
step-Under f fs ss (enters grant count) r o v u = enter-Under f fs ss r v grant count u
step-Under f fs ss (sets g slot root) r o v u = set_slot-Under f fs ss r v g slot root u
step-Under f fs ss (leaves g) r o v u = leave-Under f fs ss r v g u
step-Under f fs ss (tails grant g transfer) r o v u = tail-Under f fs ss r v grant g transfer u
step-Under f fs ss (pins grant root) r o v u =
    KeepsFrames-Under f fs ss r _ (pin-KeepsFrames grant root r) u
step-Under f fs ss (unpins h) r o v u = KeepsFrames-Under f fs ss r _ (unpin-KeepsFrames h r) u
step-Under f fs ss (rewrites g) r o v u =
    KeepsFrames-Under f fs ss r _ (unfold rewrite_pins in ground arith) u
step-Under f fs ss invalidates r o v u =
    KeepsFrames-Under f fs ss r _ (unfold invalidate_pins in ground arith) u

run-Under :
    (f : Frame) (fs : List Frame) (ss : List (Option Root)) (cs : List Call) (r : Roots)
    → IsValid r
    → Under f fs ss r
    → Under f fs ss (run cs r)
unfolding run
run-Under f fs ss [] r v u = u
run-Under f fs ss (c ∷ cs) r v u =
    run-Under f fs ss cs (step c r) (step-IsValid c r v) (step-Under f fs ss c r tt v u)

-- The state after a frame was entered: it stands on what was there.
entered-Standing :
    (grant : Grant) (count : ℕ) (r s : Roots) (f : Frame)
    → IsValid r
    → enter grant count r ≡ (ok f, s)
    → Standing f r.frames r.slots s
unfolding enter enter_frame next_generation
entered-Standing grant count r s f v e = record {
  above = ground arith;
  under = ground (arith, take-append r.slots (replicate count none) (length r.slots) refl);
}

Dead-refused : (f : Frame) (r : Roots) → Dead f r → is_current f r.frames ≡ false
Dead-refused f r d = top r.frames d.absent
  where
    top : (fs : List Frame) → All (λ g. g.generation ≢ f.generation) fs → is_current f fs ≡ false
    top [] a = unfold is_current in refl
    top (g ∷ gs) a = unfold is_current frame_eq in ground (arith, a.0)

-- A frame that is current where it stands is on top, over what stood under it.
Standing-current : (f : Frame) (fs gs : List Frame) → Above f fs (f ∷ gs) → gs ≡ fs
Standing-current f fs gs (inl e) = ground arith
Standing-current f fs gs (inr a) = absurd (omega (arith, a.0))

leave-restored :
    (f : Frame) (fs : List Frame) (ss : List (Option Root)) (r w : Roots)
    → Under f fs ss r
    → leave f r ≡ (ok tt, w)
    → (w.frames ≡ fs) × (w.slots ≡ ss)
unfolding leave
leave-restored f fs ss r w (inr d) e = absurd (ground (arith, Dead-refused f r d))
leave-restored f fs ss r w (inl u) e = elim (Bool-cases (is_current f r.frames)) [
  | inr n ↦ absurd (ground arith)
  | inl n ↦
      let top = current_top f r.frames n in
      let below = Standing-current f fs (pop_frame r.frames) (subst (Above f fs) top u.above) in
      let kept = u.under in (ground (arith, below), ground (arith, kept))
]

-- Frames are a stack. Whatever calls are made after a frame was entered in a valid state, if leaving
-- that frame succeeds then the frames and the slots are again exactly those from before it was
-- entered.
pub leave_restores :
    (grant : Grant) (count : ℕ) (r s w : Roots) (f : Frame) (cs : List Call)
    → IsValid r
    → enter grant count r ≡ (ok f, s)
    → leave f (run cs s) ≡ (ok tt, w)
    → (w.frames ≡ r.frames) × (w.slots ≡ r.slots)
leave_restores grant count r s w f cs v e l =
    let valid : IsValid s =
      subst (λ (p : Result Frame Error × Roots). IsValid p.1) e (enter-IsValid grant count r v) in
    leave-restored f r.frames r.slots (run cs s) w
      (run-Under f r.frames r.slots cs s valid (inl (entered-Standing grant count r s f v e))) l

left-Dead : (f : Frame) (r s : Roots) → IsValid r → leave f r ≡ (ok tt, s) → Dead f s
unfolding leave
left-Dead f r s v e = elim (Bool-cases (is_current f r.frames)) [
  | inr n ↦ absurd (ground arith)
  | inl n ↦
      let top = current_top f r.frames n in
      let aged : Aged (suc r.generation) (f ∷ pop_frame r.frames) =
        subst (Aged (suc r.generation)) top v.aged in
      let out = Aged-absent f.generation f.generation (pop_frame r.frames) (omega arith) aged.1 in
      let same : s.frames ≡ pop_frame r.frames = ground arith in
      record {
        used = ground (arith, aged.0);
        absent = subst (All (λ g. g.generation ≢ f.generation)) (sym same) out;
      }
]

-- No slots are that many, so only the other case of `Under` is left.
abbrev too_many : Frame → List (Option Root)
too_many f = replicate (suc f.base) none

run-Dead : (f : Frame) (cs : List Call) (r : Roots) → IsValid r → Dead f r → Dead f (run cs r)
run-Dead f cs r v d = elim (run-Under f [] (too_many f) cs r v (inr d)) [
  | inl u ↦ absurd (
      omega (
        arith,
        ap length u.under,
        length-take f.base (run cs r).slots,
        length-replicate {A = Option Root} f.base none,
      ))
  | inr d' ↦ d'
]

-- A frame that was left in a valid state is refused by `set`, `leave` and `tail` ever after, and they change nothing,
-- whatever frames were entered since at the same place.
pub left_frame_refused :
    (grant : Grant) (f : Frame) (r s : Roots) (cs : List Call) (slot : ℕ) (root : Option Root)
    (transfer : List Root)
    → IsValid r
    → leave f r ≡ (ok tt, s)
    → let u = run cs s in
      (set_slot f slot root u ≡ (err invalid_frame, u))
      × (leave f u ≡ (err invalid_frame, u))
      × (tail grant f transfer u ≡ (err invalid_frame, u))
unfolding set_slot leave tail
left_frame_refused grant f r s cs slot root transfer v e =
    let valid : IsValid s =
      subst (λ (p : Result (Unit {0}) Error × Roots). IsValid p.1) e (leave-IsValid f r v) in
    let n = Dead-refused f (run cs s) (run-Dead f cs s valid (left-Dead f r s v e)) in
    (rw (n, set_slot), rw (n, leave), rw (n, tail))
