-- ===== src/Roots.antt =====
-- crates/telora-wasm-shared/src/gc_roots.rs: the frame slots and the Host pins that a collection
-- scans. The head of `frames` and of `free_pins` is the end of the vector, where it grows; `slots`
-- and `pins` are in index order.
pub mod FreeList
pub mod Invariant
pub mod FrameSteps
pub mod PinSteps
pub mod History
pub mod KeepsPins
pub mod Handles
pub mod Held
pub mod Lifo
pub mod FrameHistory
mod Examples
use telora.Common.{
  ℕ, zero, suc, ◌+◌, ◌-◌, ◌*◌, ◌/◌, ◌%◌, ◌^◌, ◌≤◌, ◌<◌, min, max, bit_and, bit_or, bit_xor, ◌≡◌,
  refl, sym, ap, ◌∙◌, ◌≢◌, ◌↔◌, ◌⊎◌, inl, inr, Bool, true, false, not, ◌&&◌, ◌||◌, Option, none,
  some, List, [], ◌∷◌, ◌++◌, map, arith, ltb, leb, ◌==◌, if◌then◌else◌, ltb→lt, lt→ltb, leb→le,
  le→leb, not_leb→lt, ==→eq, ==-self, tests, Bool-cases, Option-cases, length, get_elem?, get_or,
  set, take, drop, replicate, All, length-append, length-set, length-take, length-drop,
  length-replicate, take-append, drop-append, take-append-drop, get_elem?-set_self,
  get_elem?-set_ne, get_elem?-append_left, get_elem?-append_last, get_elem?-lt, get_elem?-ge,
  get_elem?-some, get_elem?-take, Result, u32_max, u64_max, usize_max, checked_add, checked_mul,
  ok_or, ok, err,
}

pub data Kind : Type 0 where
  storage parse_plan : Kind
  context : (string_type : ℕ) (codec : Bool) → Kind
  references : (type_id initialized : ℕ) → Kind
  value : (type_id : ℕ) → Kind
  object : (type_id tag initialized : ℕ) → Kind
  source : Kind

pub record Root : Type 0 where
  pub reference : ℕ
  pub kind : Kind

pub data Error : Type 0 where
  limit allocation invalid_frame invalid_slot stale_handle : Error

pub record Frame : Type 0 where
  pub generation : ℕ
  pub base : ℕ
  pub count : ℕ

pub record Handle : Type 0 where
  pub generation : ℕ
  pub slot : ℕ

pub record Pin : Type 0 where
  pub generation : ℕ
  pub root : Option Root

pub record Roots : Type 0 where
  pub frames : List Frame
  pub slots : List (Option Root)
  pub pins : List Pin
  pub free_pins : List ℕ
  pub generation : ℕ
  pub limit : ℕ

-- The vectors that an operation may have to grow. `Vec::try_reserve` asks the allocator, whose
-- answers are an argument of each operation.
pub data Buffer : Type 0 where
  slots frames pins free_pins : Buffer

abbrev pub Grant : Type 0
Grant = Buffer → ℕ → Bool

pub new : ℕ → Roots
new top = record { frames = []; slots = []; pins = []; free_pins = []; generation = 0; limit = top }

-- `a.checked_add(b).and_then(|n| n.checked_add(c))`
abbrev pub checked_sum : ℕ → ℕ → ℕ → Option ℕ
checked_sum a b c = elim (checked_add usize_max a b) [
  | none ↦ none
  | some n ↦ checked_add usize_max n c
]

-- A fresh generation, from the u64 counter.
pub next_generation : Roots → Result ℕ Error × Roots
next_generation r = elim (checked_add u64_max r.generation 1) [
  | none ↦ (err limit, r)
  | some g ↦ (ok g, record r { generation = g })
]

pub depth : Roots → ℕ
depth r = length r.frames

pub active_slots : Roots → ℕ
active_slots r = length r.slots

-- A root whose reference is not null.
abbrev pub non_null : Option Root → Option Root
non_null none = none
non_null (some root) = if root.reference == 0 then none else some root

-- The non-null roots of a list of slots, in order.
pub present : List (Option Root) → List Root
present [] = []
present (s ∷ ss) = elim (non_null s) [ none ↦ present ss | some root ↦ root ∷ present ss ]

-- What a collection scans: the slots of all frames, then the pins.
pub iter : Roots → List Root
iter r = present (r.slots ++ map (λ p. p.root) r.pins)

-- Entering, filling, leaving and replacing frames.

-- The rest of `enter`, once the vectors have room.
pub enter_frame : ℕ → Result ℕ Error × Roots → Result Frame Error × Roots
enter_frame count (err e, r) = (err e, r)
enter_frame count (ok g, r) = (
  ok (record { generation = g; base = length r.slots; count = count }),
  record r {
    slots = r.slots ++ replicate count none;
    frames = record { generation = g; base = length r.slots; count = count } ∷ r.frames;
  },
)

pub enter : Grant → ℕ → Roots → Result Frame Error × Roots
enter grant count r = elim (checked_add usize_max (length r.slots) count) [
  | none ↦ (err limit, r)
  | some end ↦ elim (checked_sum end (length r.pins) (length r.frames + 1)) [
    | none ↦ (err limit, r)
    | some total ↦
        if ltb r.limit total
        then (err limit, r)
        else if not (grant Buffer.slots count)
        then (err allocation, r)
        else if not (grant Buffer.frames 1)
        then (err allocation, r)
        else enter_frame count (next_generation r)
  ]
]

pub frame_eq : Frame → Frame → Bool
frame_eq f g = f.generation == g.generation && f.base == g.base && f.count == g.count

-- Whether the frame is the innermost one.
pub is_current : Frame → List Frame → Bool
unfolding frame_eq
is_current f [] = false
is_current f (g ∷ gs) = frame_eq g f

pub set_slot : Frame → ℕ → Option Root → Roots → Result (Unit {0}) Error × Roots
set_slot f slot root r =
    if not (is_current f r.frames)
    then (err invalid_frame, r)
    else if leb f.count slot
    then (err invalid_slot, r)
    else (ok tt, record r { slots = set r.slots (f.base + slot) (non_null root) })

pub pop_frame : List Frame → List Frame
pop_frame [] = []
pop_frame (f ∷ fs) = fs

pub leave : Frame → Roots → Result (Unit {0}) Error × Roots
leave f r =
    if not (is_current f r.frames)
    then (err invalid_frame, r)
    else (ok tt, record r { slots = take f.base r.slots; frames = pop_frame r.frames })

-- The rest of `tail`, once the slots have room: `*self.frames.last_mut().unwrap() = next`.
pub tail_frame : Frame → List Root → Result ℕ Error × Roots → Result Frame Error × Roots
tail_frame f transfer (err e, r) = (err e, r)
tail_frame f transfer (ok g, r) = (
  ok (record { generation = g; base = f.base; count = length transfer }),
  record r {
    slots = take f.base r.slots ++ map some transfer;
    frames = record { generation = g; base = f.base; count = length transfer } ∷ pop_frame r.frames;
  },
)

-- `end.saturating_sub(self.slots.len())` is the subtraction of the natural numbers.
pub tail : Grant → Frame → List Root → Roots → Result Frame Error × Roots
tail grant f transfer r =
    if not (is_current f r.frames)
    then (err invalid_frame, r)
    else elim (checked_add usize_max f.base (length transfer)) [
      | none ↦ (err limit, r)
      | some end ↦ elim (checked_sum end (length r.pins) (length r.frames)) [
        | none ↦ (err limit, r)
        | some total ↦
            if ltb r.limit total
            then (err limit, r)
            else if not (grant Buffer.slots (end - length r.slots))
            then (err allocation, r)
            else tail_frame f transfer (next_generation r)
      ]
    ]

-- Pins: roots held by the Host under generation-checked handles.

-- `pin` with a generation in hand: a free slot is used again, else the vector grows.
pub pin_slot : Grant → Root → ℕ → List ℕ → Roots → Result Handle Error × Roots
pin_slot grant root g (slot ∷ free) r = (
  ok (record { generation = g; slot = slot }),
  record r {
    free_pins = free;
    pins = set r.pins slot (record { generation = g; root = some root });
  },
)
pin_slot grant root g [] r =
    elim (checked_sum (length r.slots) (length r.frames) (length r.pins + 1)) [
      | none ↦ (err limit, r)
      | some total ↦
          if ltb r.limit total
          then (err limit, r)
          else if not (grant Buffer.pins 1)
          then (err allocation, r)
          else if not (grant Buffer.free_pins (length r.pins + 1 - length r.free_pins))
          then (err allocation, r)
          else (
            ok (record { generation = g; slot = length r.pins }),
            record r { pins = r.pins ++ record { generation = g; root = some root } ∷ [] },
          )
    ]

pub pin_generation : Grant → Root → Result ℕ Error × Roots → Result Handle Error × Roots
unfolding pin_slot
pin_generation grant root (err e, r) = (err e, r)
pin_generation grant root (ok g, r) = pin_slot grant root g r.free_pins r

-- The generation is taken first, also where no slot is left.
pub pin : Grant → Root → Roots → Result Handle Error × Roots
unfolding pin_generation
pin grant root r = pin_generation grant root (next_generation r)

-- `self.pins.get(slot).filter(..).and_then(|pin| pin.root)`
pub pinned : Option Pin → ℕ → Option Root
pinned none g = none
pinned (some p) g = if p.generation == g then p.root else none

pub get : Handle → Roots → Result Root Error
unfolding pinned
get h r = ok_or (pinned (get_elem? r.pins h.slot) h.generation) stale_handle

-- `self.pins[slot].root = None`
pub clear : List Pin → ℕ → List Pin
clear [] i = []
clear (p ∷ ps) zero = record p { root = none } ∷ ps
clear (p ∷ ps) (suc i) = p ∷ clear ps i

pub unpin : Handle → Roots → Result Root Error × Roots
unfolding get clear
unpin h r = elim (get h r) [
  | err e ↦ (err e, r)
  | ok root ↦ (ok root, record r { pins = clear r.pins h.slot; free_pins = h.slot ∷ r.free_pins })
]

pub relocate_pin : (Root → Root) → Pin → Pin
relocate_pin relocate p = elim p.root [
  | none ↦ p
  | some root ↦ record p { root = some (relocate root) }
]

pub rewrite_pins : (Root → Root) → Roots → Roots
rewrite_pins relocate r = record r { pins = map (relocate_pin relocate) r.pins }

-- The indices from `slot` on, each pushed on those before it.
pub push_slots : ℕ → List Pin → List ℕ → List ℕ
push_slots slot [] free = free
push_slots slot (p ∷ ps) free = push_slots (suc slot) ps (slot ∷ free)

pub invalidate_pins : Roots → Roots
unfolding push_slots
invalidate_pins r = record r {
  pins = map (λ (p : Pin). record p { root = none }) r.pins;
  free_pins = push_slots 0 r.pins [];
}
