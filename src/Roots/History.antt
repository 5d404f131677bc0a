-- ===== src/Roots/History.antt =====
-- Histories of calls on the roots, and what holds after any of them.
use telora.Common.{ℕ, Option, List, [], ◌∷◌, All}
use telora.Roots.{
  Root, Frame, Handle, Roots, Grant, new, enter, set_slot, leave, tail, pin, unpin, rewrite_pins,
  invalidate_pins,
}
use telora.Roots.Invariant.{IsValid, new-IsValid}
use telora.Roots.FrameSteps.{enter-IsValid, set_slot-IsValid, leave-IsValid, tail-IsValid}
use telora.Roots.PinSteps.{
  pin-IsValid, unpin-IsValid, rewrite_pins-IsValid, invalidate_pins-IsValid,
}

-- The calls that generated code and the Host make.
pub data Call : Type 0 where
  enters : (grant : Grant) (count : ℕ) → Call
  sets : (f : Frame) (slot : ℕ) (root : Option Root) → Call
  leaves : (f : Frame) → Call
  tails : (grant : Grant) (f : Frame) (transfer : List Root) → Call
  pins : (grant : Grant) (root : Root) → Call
  unpins : (h : Handle) → Call
  rewrites : (relocate : Root → Root) → Call
  invalidates : Call

unfoldable pub step : Call → Roots → Roots
step (enters grant count) r = (enter grant count r).1
step (sets f slot root) r = (set_slot f slot root r).1
step (leaves f) r = (leave f r).1
step (tails grant f transfer) r = (tail grant f transfer r).1
step (pins grant root) r = (pin grant root r).1
step (unpins h) r = (unpin h r).1
step (rewrites relocate) r = rewrite_pins relocate r
step invalidates r = invalidate_pins r

unfoldable pub run : List Call → Roots → Roots
run [] r = r
run (c ∷ cs) r = run cs (step c r)

pub step-IsValid : (c : Call) (r : Roots) → IsValid r → IsValid (step c r)
unfolding step
step-IsValid (enters grant count) r v = enter-IsValid grant count r v
step-IsValid (sets f slot root) r v = set_slot-IsValid f slot root r v
step-IsValid (leaves f) r v = leave-IsValid f r v
step-IsValid (tails grant f transfer) r v = tail-IsValid grant f transfer r v
step-IsValid (pins grant root) r v = pin-IsValid grant root r v
step-IsValid (unpins h) r v = unpin-IsValid h r v
step-IsValid (rewrites relocate) r v = rewrite_pins-IsValid relocate r v
step-IsValid invalidates r v = invalidate_pins-IsValid r v

pub run-IsValid : (cs : List Call) (r : Roots) → IsValid r → IsValid (run cs r)
unfolding run
run-IsValid [] r v = v
run-IsValid (c ∷ cs) r v = run-IsValid cs (step c r) (step-IsValid c r v)

-- A predicate that every call keeps, on valid states, holds after every history.
pub run_keeps {ℓ} :
    (P : Roots → Type ℓ) (OK : Call → Type 0)
    → ((c : Call) (r : Roots) → OK c → IsValid r → P r → P (step c r))
    → (cs : List Call) (r : Roots) → All OK cs
    → IsValid r
    → P r
    → P (run cs r)
unfolding run
run_keeps P OK keep [] r h v p = p
run_keeps P OK keep (c ∷ cs) r h v p =
    run_keeps P OK keep cs (step c r) h.1 (step-IsValid c r v) (keep c r h.0 v p)

-- Starting from `new`, any sequence of calls, failed ones included, leaves the frames tiling the
-- slots, generations falling from the innermost frame outwards and none above the counter, the
-- slots, pins and frames together within the limit, and the free list holding distinct unused pin
-- slots, as many as there are.
pub run-new-IsValid : (top : ℕ) (cs : List Call) → IsValid (run cs (new top))
run-new-IsValid top cs = run-IsValid cs (new top) (new-IsValid top)
