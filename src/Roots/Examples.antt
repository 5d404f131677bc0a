-- ===== src/Roots/Examples.antt =====
-- Runs of gc_roots.rs at concrete calls.
use mathlib.Core.List.{Mem}
use telora.Common.{◌≡◌, refl, ap, ◌≢◌, true, none, some, List, [], ◌∷◌, arith, All, ok, err}
use telora.Roots.{
  storage, value, Root, Frame, Handle, Roots, Grant, new, next_generation, present, iter, enter,
  enter_frame, is_current, frame_eq, set_slot, leave, pop_frame, tail, pin, pin_slot,
  pin_generation, pinned, get, clear, unpin, stale_handle, invalid_frame,
}
use telora.Roots.Invariant.{IsValid, new-IsValid}
use telora.Roots.History.{
  Call, enters, sets, leaves, tails, pins, unpins, step, run, run-new-IsValid,
}
use telora.Roots.Handles.{unpin_once}
use telora.Roots.Held.{Harmless, pin_held}
use telora.Roots.FrameHistory.{leave_restores, left_frame_refused}

abbrev granted : Grant
granted = λ b n. true

abbrev token : Root
token = record { reference = 64; kind = storage }

abbrev other : Root
other = record { reference = 128; kind = value 3 }

abbrev first_frame : Frame
first_frame = record { generation = 1; base = 0; count = 2 }

abbrev second_frame : Frame
second_frame = record { generation = 3; base = 2; count = 3 }

abbrev first_handle : Handle
first_handle = record { generation = 2; slot = 0 }

-- A frame of two slots, one of them filled, and a pin.
abbrev opening : List Call
opening = enters granted 2 ∷ sets first_frame 1 (some other) ∷ pins granted token ∷ []

abbrev opened : Roots
opened = run opening (new 12)

opened-IsValid : IsValid opened
opened-IsValid = run-new-IsValid 12 opening

-- The frame is replaced, left, and the pin's slot is used again; some calls fail.
abbrev closing : List Call
closing =
    enters granted 3
    ∷ sets second_frame 0 (some token)
    ∷ tails granted second_frame (token ∷ other ∷ [])
    ∷ leaves second_frame
    ∷ leaves (record { generation = 4; base = 2; count = 2 })
    ∷ pins granted other
    ∷ leaves first_frame
    ∷ enters granted 20
    ∷ []

opened_slots : opened.slots ≡ none ∷ some other ∷ []
unfolding run step new enter enter_frame next_generation set_slot is_current frame_eq pin
    pin_generation pin_slot
opened_slots = refl

opened_roots : iter opened ≡ other ∷ token ∷ []
unfolding run step new enter enter_frame next_generation set_slot is_current frame_eq pin
    pin_generation pin_slot iter present
opened_roots = refl

run-new-IsValid_example : IsValid (run closing (new 12))
run-new-IsValid_example = run-new-IsValid 12 closing

abbrev released : Roots
released = (unpin first_handle opened).1

released-token : unpin first_handle opened ≡ (ok token, released)
unfolding run step new enter enter_frame next_generation set_slot is_current frame_eq pin
    pin_generation pin_slot unpin get pinned clear
released-token = refl

unpin_once_example :
    (get first_handle (run closing released) ≡ err stale_handle)
    × (unpin first_handle (run closing released) ≡ (err stale_handle, run closing released))
unpin_once_example =
    unpin_once first_handle opened released token closing opened-IsValid released-token

abbrev held : Roots
held = (pin granted token (new 12)).1

abbrev held_handle : Handle
held_handle = record { generation = 1; slot = 0 }

held-token : pin granted token (new 12) ≡ (ok held_handle, held)
unfolding new next_generation pin pin_generation pin_slot
held-token = refl

-- Another pin comes and goes, twice.
abbrev busy : List Call
busy =
    pins granted other
    ∷ unpins (record { generation = 2; slot = 1 })
    ∷ pins granted other
    ∷ unpins (record { generation = 3; slot = 1 })
    ∷ enters granted 2
    ∷ []

busy-Harmless : All (Harmless held_handle) busy
busy-Harmless =
    let other_slot : (h : Handle) → h.slot ≡ 1 → ¬ (h ≡ held_handle) =
      λ h o e. omega (arith, ap (λ (k : Handle). k.slot) e) in
    (tt, (other_slot _ refl, (tt, (other_slot _ refl, (tt, tt)))))

pin_held_example :
    (get held_handle (run busy held) ≡ ok token)
    × (token.reference ≢ 0 → Mem token (iter (run busy held)))
pin_held_example =
    pin_held granted token (new 12) held held_handle busy (new-IsValid 12) held-token busy-Harmless

abbrev entered : Roots
entered = (enter granted 3 opened).1

entered_frame : enter granted 3 opened ≡ (ok second_frame, entered)
unfolding run step new enter enter_frame next_generation set_slot is_current frame_eq pin
    pin_generation pin_slot
entered_frame = refl

-- Calls that stay above the second frame, and a failed attempt at the first.
abbrev above : List Call
above =
    sets second_frame 2 (some token)
    ∷ enters granted 1
    ∷ leaves (record { generation = 4; base = 5; count = 1 })
    ∷ leaves first_frame
    ∷ pins granted other
    ∷ []

abbrev left : Roots
left = (leave second_frame (run above entered)).1

left_second : leave second_frame (run above entered) ≡ (ok tt, left)
unfolding run step new enter enter_frame next_generation set_slot is_current frame_eq pin
    pin_generation pin_slot leave pop_frame
left_second = refl

leave_restores_example : (left.frames ≡ opened.frames) × (left.slots ≡ opened.slots)
leave_restores_example =
    leave_restores granted 3 opened entered left second_frame above opened-IsValid entered_frame
      left_second

abbrev emptied_frames : Roots
emptied_frames = (leave first_frame opened).1

left_first : leave first_frame opened ≡ (ok tt, emptied_frames)
unfolding run step new enter enter_frame next_generation set_slot is_current frame_eq pin
    pin_generation pin_slot leave pop_frame
left_first = refl

left_frame_refused_example :
    let u = run closing emptied_frames in
    (set_slot first_frame 0 none u ≡ (err invalid_frame, u))
    × (leave first_frame u ≡ (err invalid_frame, u))
    × (tail granted first_frame (token ∷ []) u ≡ (err invalid_frame, u))
left_frame_refused_example =
    left_frame_refused granted first_frame opened emptied_frames closing 0 none (token ∷ [])
      opened-IsValid left_first
