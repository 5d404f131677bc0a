-- ===== src/Roots/KeepsPins.antt =====
-- The frame operations of gc_roots.rs leave the pins alone.
use telora.Common.{ℕ, ◌≤◌, ◌≡◌, Option, List, arith}
use telora.Roots.{
  Root, Frame, Roots, Grant, next_generation, enter, enter_frame, set_slot, leave, tail, tail_frame,
}

-- What the frame operations do to the pins: nothing.
pub record KeepsPins (r s : Roots) : Type 0 where
  pub later : r.generation ≤ s.generation
  pub same_pins : s.pins ≡ r.pins
  pub same_free : s.free_pins ≡ r.free_pins

enter_frame-KeepsPins :
    (count : ℕ) (r : Roots) → KeepsPins r (enter_frame count (next_generation r)).1
unfolding enter_frame next_generation
enter_frame-KeepsPins count r = ground arith

pub enter-KeepsPins : (grant : Grant) (count : ℕ) (r : Roots) → KeepsPins r (enter grant count r).1
unfolding enter
enter-KeepsPins grant count r = ground (arith, enter_frame-KeepsPins count r)

pub set_slot-KeepsPins :
    (f : Frame) (slot : ℕ) (root : Option Root) (r : Roots) → KeepsPins r (set_slot f slot root r).1
unfolding set_slot
set_slot-KeepsPins f slot root r = ground arith

pub leave-KeepsPins : (f : Frame) (r : Roots) → KeepsPins r (leave f r).1
unfolding leave
leave-KeepsPins f r = ground arith

tail_frame-KeepsPins :
    (f : Frame) (transfer : List Root) (r : Roots)
    → KeepsPins r (tail_frame f transfer (next_generation r)).1
unfolding tail_frame next_generation
tail_frame-KeepsPins f transfer r = ground arith

pub tail-KeepsPins :
    (grant : Grant) (f : Frame) (transfer : List Root) (r : Roots)
    → KeepsPins r (tail grant f transfer r).1
unfolding tail
tail-KeepsPins grant f transfer r = ground (arith, tail_frame-KeepsPins f transfer r)
