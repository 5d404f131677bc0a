-- ===== src/FrameScratch/History.antt =====
-- Histories of the scratch storage: the calls of the generated code, which also stores words.
use mathlib.Core.Path.{subst}
use telora.Common.{
  ℕ, ◌^◌, ◌<◌, ◌≡◌, refl, sym, List, [], ◌∷◌, arith, length, set, All, length-set, length-take,
  Result, ok, err,
}
use telora.FrameScratch.{Error, panic, Scratch, Grant, enter, leave, tail, reset, new}
use telora.FrameScratch.Packets.{set-Words}
use telora.FrameScratch.Invariant.{Nested, IsValid, take-Words}
use telora.FrameScratch.Enter.{popped}
use telora.FrameScratch.Entry.{Entered, enter-Entered}
use telora.FrameScratch.Tail.{Tailed, tail-Tailed}

pub data Op : Type 0 where
  enter_frame : Grant → (bytes args : ℕ) → Op
  leave_frame : Op
  tail_call : Grant → (packet bytes count : ℕ) → Op
  store : (index value : ℕ) → Op
  clear : Op

-- The arguments that fit their registers.
abbrev pub Fits : Op → Type 0
Fits (enter_frame g bytes args) = args < 2 ^ 32
Fits (store index value) = value < 2 ^ 64
Fits op = Unit {0}

-- The state after a call, whatever the call answers; a store goes through an address of `words`.
unfoldable pub step : Op → Scratch → Scratch
step (enter_frame g bytes args) s = (enter g bytes args s).1
step leave_frame s = (leave s).1
step (tail_call g packet bytes count) s = (tail g packet bytes count s).1
step (store index value) s = record s { words = set s.words index value }
step clear s = reset s

unfoldable pub run : List Op → Scratch → Scratch
run [] s = s
run (op ∷ ops) s = run ops (step op s)

pub new-IsValid : IsValid new
unfolding new
new-IsValid = record {
  bounded = omega arith;
  words = tt;
  transfer = tt;
  nested = refl;
  packed = refl;
}

Entered-state :
    (bytes args : ℕ) (s : Scratch) (r : Result ℕ Error × Scratch)
    → IsValid s
    → Entered bytes args s r
    → IsValid r.1
Entered-state bytes args s (ok frame, s') v h = h.0
Entered-state bytes args s (err panic, s') v h = absurd h
Entered-state bytes args s (err _, s') v h = subst IsValid (sym h) v

Tailed-state :
    (packet bytes count : ℕ) (s : Scratch) (r : Result ℕ Error × Scratch)
    → IsValid s
    → Tailed packet bytes count s r
    → IsValid r.1
Tailed-state packet bytes count s (ok reference, s') v h = h.0
Tailed-state packet bytes count s (err panic, s') v h = absurd h
Tailed-state packet bytes count s (err _, s') v h = subst IsValid (sym h) v

leave-IsValid : (s : Scratch) → IsValid s → IsValid (leave s).1
unfolding leave
leave-IsValid s v = go s.frames refl
  where
    go : (frames : List ℕ) → s.frames ≡ frames → IsValid (leave s).1
    go [] e = rw (e, leave) v
    go (base ∷ frames) e =
        let nested = subst (Nested (length s.words)) e v.nested in
        let below = length-take base s.words in
        subst (λ r. IsValid r.1) (sym (popped s base frames e))
          (record {
            bounded = omega (arith, below, v.bounded);
            words = take-Words base s.words v.words;
            transfer = v.transfer;
            nested = subst (λ n. Nested n frames) (omega (arith, below, nested.0)) nested.1;
            packed = v.packed;
          })

step-IsValid : (op : Op) (s : Scratch) → Fits op → IsValid s → IsValid (step op s)
unfolding step reset
step-IsValid (enter_frame g bytes args) s fits v =
    Entered-state bytes args s (enter g bytes args s) v (enter-Entered g bytes args s v fits)
step-IsValid leave_frame s fits v = leave-IsValid s v
step-IsValid (tail_call g packet bytes count) s fits v =
    Tailed-state packet bytes count s (tail g packet bytes count s) v
      (tail-Tailed g packet bytes count s v)
step-IsValid (store index value) s fits v = record {
  bounded = omega (arith, length-set s.words index value, v.bounded);
  words = set-Words s.words index value v.words fits;
  transfer = v.transfer;
  nested = rw (length-set s.words index value) v.nested;
  packed = v.packed;
}
step-IsValid clear s fits v = new-IsValid

pub run_from-IsValid :
    (ops : List Op) (s : Scratch) → All Fits ops → IsValid s → IsValid (run ops s)
unfolding run
run_from-IsValid [] s fits v = v
run_from-IsValid (op ∷ ops) s fits v =
    run_from-IsValid ops (step op s) fits.1 (step-IsValid op s fits.0 v)

-- Any sequence of enter, leave, tail, reset and stores of words from the empty storage, failed calls
-- included, with arguments of 32 bits and words of 64, keeps the storage below 2^27 words, the frames
-- nested with the outermost at the bottom, and a waiting packet as long as the count of its references
-- says.
pub run_calls-IsValid : (ops : List Op) → All Fits ops → IsValid (run ops new)
run_calls-IsValid ops fits = run_from-IsValid ops new fits new-IsValid
