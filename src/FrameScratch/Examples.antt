-- ===== src/FrameScratch/Examples.antt =====
-- Runs of the scratch storage on small inputs.
use telora.Common.{ℕ, ◌+◌, ◌*◌, ◌^◌, ◌≡◌, refl, true, none, some, List, [], ◌∷◌, arith, ok, err}
use telora.FrameScratch.{
  scratch_base, transfer_base, Error, Scratch, Grant, new, check_packet, enter_extent, relocate_one,
  relocate, entered, enter, leave, tail_start, tail,
}
use telora.FrameScratch.Invariant.{IsValid}
use telora.FrameScratch.Entry.{Entered, enter-Entered}
use telora.FrameScratch.Tail.{Tailed, tail-Tailed}
use telora.FrameScratch.Adoption.{Adopted, enter-Adopted}
use telora.FrameScratch.History.{Op, enter_frame, tail_call, store, step, run, run_calls-IsValid}

abbrev granted : Grant
granted = record { frames = true; words = true; transfer = true }

-- A reference to the second word of a packet, and 77.
abbrev pair : ℕ
pair = (transfer_base + 8) + 77 * 2 ^ 32

-- A frame of two words, the pair and 5, and its tail call.
abbrev calls : List Op
calls =
    enter_frame granted 16 0
    ∷ store 1 pair
    ∷ store 2 5
    ∷ tail_call granted (scratch_base + 8) 16 2
    ∷ []

abbrev waiting : Scratch
waiting = record { words = []; frames = []; transfer = pair ∷ 5 ∷ []; pending = some 2 }

packed_away : run calls new ≡ waiting
unfolding run step new enter enter_extent check_packet entered tail tail_start leave
packed_away = refl

-- The next frame has the packet at its bottom, and the reference leads to its copy.
adopted_run : enter granted 8 transfer_base waiting ≡ (
  ok (scratch_base + 24),
  record {
    words = ((scratch_base + 8) + 77 * 2 ^ 32) ∷ 5 ∷ scratch_base ∷ 0 ∷ [];
    frames = 0 ∷ [];
    transfer = [];
    pending = none;
  },
)
unfolding enter enter_extent check_packet entered relocate relocate_one
adopted_run = refl

refused : enter granted 8 0 waiting ≡ (err Error.invalid_adoption, waiting)
unfolding enter enter_extent
refused = refl

run_calls-IsValid_example : IsValid (run calls new)
run_calls-IsValid_example =
    run_calls-IsValid calls (omega arith, (omega arith, (omega arith, (tt, tt))))

waiting-IsValid : IsValid waiting
waiting-IsValid = record {
  bounded = omega arith;
  words = tt;
  transfer = (omega arith, (omega arith, tt));
  nested = refl;
  packed = omega arith;
}

enter-Entered_example : Entered 8 transfer_base waiting (enter granted 8 transfer_base waiting)
enter-Entered_example = enter-Entered granted 8 transfer_base waiting waiting-IsValid (omega arith)

enter-Adopted_example : Adopted 2 waiting (enter granted 8 transfer_base waiting)
enter-Adopted_example =
    enter-Adopted granted 8 transfer_base waiting 2 waiting-IsValid (omega arith) refl

abbrev framed : Scratch
framed = record { words = 0 ∷ pair ∷ 5 ∷ []; frames = 0 ∷ []; transfer = []; pending = none }

framed-IsValid : IsValid framed
framed-IsValid = record {
  bounded = omega arith;
  words = (omega arith, (omega arith, (omega arith, tt)));
  transfer = tt;
  nested = (omega arith, refl);
  packed = refl;
}

tail-Tailed_example :
    Tailed (scratch_base + 8) 16 2 framed (tail granted (scratch_base + 8) 16 2 framed)
tail-Tailed_example = tail-Tailed granted (scratch_base + 8) 16 2 framed framed-IsValid
