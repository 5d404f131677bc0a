-- ===== src/Roots/Invariant.antt =====
-- The invariant of gc_roots.rs: frames tile the slots, generations are fresh, the budget holds and
-- the free list is exact.
use telora.Common.{
  ℕ, zero, suc, ◌+◌, ◌≤◌, ◌<◌, ◌≡◌, refl, ◌⊎◌, List, [], ◌∷◌, ◌++◌, map, arith, length, set, All,
  ok, err,
}
use telora.Roots.{new, next_generation, Root, Pin, Frame, Roots, Error, relocate_pin, clear}
use telora.Roots.FreeList.{FreeList, live_count, emptied}

-- From the innermost frame outwards: each begins where the next one out ends.
abbrev pub Stacked : List Frame → ℕ → Type 0
Stacked [] n = n ≡ 0
Stacked (f ∷ fs) n = (f.base + f.count ≡ n) × Stacked fs f.base

-- Generations fall from the innermost frame outwards, all at most `g`.
abbrev pub Aged : ℕ → List Frame → Type 0
Aged g [] = Unit {0}
Aged g (f ∷ fs) = (f.generation < g) × Aged f.generation fs

abbrev pub PinsAged : ℕ → List Pin → Type 0
PinsAged g = All (λ p. p.generation ≤ g)

pub record IsValid (r : Roots) : Type 0 where
  pub stacked : Stacked r.frames (length r.slots)
  pub aged : Aged (suc r.generation) r.frames
  pub pins_aged : PinsAged r.generation r.pins
  pub budget : length r.slots + length r.pins + length r.frames ≤ r.limit
  pub free : FreeList r.pins r.free_pins
  pub accounted : live_count r.pins + length r.free_pins ≡ length r.pins

pub new-IsValid : (top : ℕ) → IsValid (new top)
unfolding new
new-IsValid top = record {
  stacked = refl;
  aged = tt;
  pins_aged = tt;
  budget = omega arith;
  free = tt;
  accounted = refl;
}

pub Aged-mono : (g h : ℕ) (fs : List Frame) → g ≤ h → Aged g fs → Aged h fs
Aged-mono g h [] le a = tt
Aged-mono g h (f ∷ fs) le a = (omega arith, a.1)

pub PinsAged-mono : (g h : ℕ) (ps : List Pin) → g ≤ h → PinsAged g ps → PinsAged h ps
PinsAged-mono g h [] le a = tt
PinsAged-mono g h (p ∷ ps) le a = (omega arith, PinsAged-mono g h ps le a.1)

pub PinsAged-set :
    (g : ℕ) (ps : List Pin) (i : ℕ) (p : Pin)
    → p.generation ≤ g
    → PinsAged g ps
    → PinsAged g (set ps i p)
PinsAged-set g [] i p le a = tt
PinsAged-set g (q ∷ ps) zero p le a = (le, a.1)
PinsAged-set g (q ∷ ps) (suc i) p le a = (a.0, PinsAged-set g ps i p le a.1)

pub PinsAged-append :
    (g : ℕ) (ps : List Pin) (p : Pin) → p.generation ≤ g → PinsAged g ps → PinsAged g (ps ++ p ∷ [])
PinsAged-append g [] p le a = (le, tt)
PinsAged-append g (q ∷ ps) p le a = (a.0, PinsAged-append g ps p le a.1)

pub PinsAged-clear : (g : ℕ) (ps : List Pin) (i : ℕ) → PinsAged g ps → PinsAged g (clear ps i)
unfolding clear
PinsAged-clear g [] i a = tt
PinsAged-clear g (q ∷ ps) zero a = a
PinsAged-clear g (q ∷ ps) (suc i) a = (a.0, PinsAged-clear g ps i a.1)

pub PinsAged-relocate :
    (f : Root → Root) (g : ℕ) (ps : List Pin) → PinsAged g ps → PinsAged g (map (relocate_pin f) ps)
unfolding relocate_pin
PinsAged-relocate f g [] a = tt
PinsAged-relocate f g (p ∷ ps) a = (ground arith, PinsAged-relocate f g ps a.1)

pub PinsAged-emptied : (g : ℕ) (ps : List Pin) → PinsAged g ps → PinsAged g (emptied ps)
PinsAged-emptied g [] a = tt
PinsAged-emptied g (p ∷ ps) a = (a.0, PinsAged-emptied g ps a.1)

-- A fresh generation alone.
pub next_generation-IsValid : (r : Roots) → IsValid r → IsValid (next_generation r).1
unfolding next_generation
next_generation-IsValid r v = record {
  stacked = ground arith;
  aged = ground (arith, Aged-mono (suc r.generation) (suc (r.generation + 1)) r.frames);
  pins_aged = ground (arith, PinsAged-mono r.generation (r.generation + 1) r.pins);
  budget = ground arith;
  free = ground arith;
  accounted = ground arith;
}

-- The counter moves on by one, unless it is at the top of its range.
pub next_generation-cases :
    (r : Roots)
    → (next_generation r ≡ (err Error.limit, r))
      ⊎ (next_generation r ≡ (ok (r.generation + 1), record r { generation = r.generation + 1 }))
unfolding next_generation
next_generation-cases r = ground arith
