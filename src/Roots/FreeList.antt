-- ===== src/Roots/FreeList.antt =====
-- The free list of gc_roots.rs against the pins: which slots it holds, and how many.
use telora.Common.{
  ℕ, zero, suc, ◌+◌, ◌<◌, ◌≡◌, refl, ap, ◌≢◌, Bool, true, false, none, some, List, [], ◌∷◌, ◌++◌,
  map, arith, length, get_elem?, set, All, get_elem?-set_ne, get_elem?-append_left,
}
use telora.Roots.{Root, Pin, clear, relocate_pin, push_slots}

-- A slot of the vector that holds no root.
abbrev pub free_at : List Pin → ℕ → Bool
free_at ps i = elim (get_elem? ps i) [
  | none ↦ false
  | some p ↦ elim p.root [ none ↦ true | some root ↦ false ]
]

abbrev pub live_count : List Pin → ℕ
live_count [] = 0
live_count (p ∷ ps) = elim p.root [ none ↦ live_count ps | some root ↦ suc (live_count ps) ]

abbrev pub Avoids : ℕ → List ℕ → Type 0
Avoids i = All (λ j. i ≢ j)

-- Every entry is a free slot, and none stands twice.
abbrev pub FreeList : List Pin → List ℕ → Type 0
FreeList ps [] = Unit {0}
FreeList ps (i ∷ free) = (free_at ps i ≡ true) × Avoids i free × FreeList ps free

pub free_at-lt : (ps : List Pin) (i : ℕ) → free_at ps i ≡ true → i < length ps
free_at-lt [] i h = cc
free_at-lt (p ∷ ps) zero h = omega arith
free_at-lt (p ∷ ps) (suc i) h = omega (arith, free_at-lt ps i h)

pub Avoids-live :
    (ps : List Pin) (i : ℕ) (free : List ℕ)
    → free_at ps i ≡ false
    → FreeList ps free
    → Avoids i free
Avoids-live ps i [] h f = tt
Avoids-live ps i (j ∷ free) h f = (λ e. cc (ap (free_at ps) e), Avoids-live ps i free h f.2)

pub FreeList-set :
    (ps : List Pin) (i : ℕ) (p : Pin) (free : List ℕ)
    → Avoids i free
    → FreeList ps free
    → FreeList (set ps i p) free
FreeList-set ps i p [] a f = tt
FreeList-set ps i p (j ∷ free) a f =
    (rw (get_elem?-set_ne ps i j p a.0, free_at) f.0, f.1, FreeList-set ps i p free a.1 f.2)

pub FreeList-append :
    (ps : List Pin) (p : Pin) (free : List ℕ) → FreeList ps free → FreeList (ps ++ p ∷ []) free
FreeList-append ps p [] f = tt
FreeList-append ps p (j ∷ free) f = (
  rw (get_elem?-append_left ps (p ∷ []) j (free_at-lt ps j f.0), free_at) f.0,
  f.1,
  FreeList-append ps p free f.2,
)

pub length-clear : (ps : List Pin) (i : ℕ) → length (clear ps i) ≡ length ps
unfolding clear
length-clear [] i = refl
length-clear (p ∷ ps) zero = refl
length-clear (p ∷ ps) (suc i) = ap suc (length-clear ps i)

pub clear_self : (ps : List Pin) (i : ℕ) → i < length ps → free_at (clear ps i) i ≡ true
unfolding clear
clear_self [] i h = elim h [ ]
clear_self (p ∷ ps) zero h = refl
clear_self (p ∷ ps) (suc i) h = clear_self ps i (omega arith)

free_at-clear : (ps : List Pin) (i j : ℕ) → free_at ps j ≡ true → free_at (clear ps i) j ≡ true
unfolding clear
free_at-clear [] i j h = h
free_at-clear (p ∷ ps) zero zero h = refl
free_at-clear (p ∷ ps) zero (suc j) h = h
free_at-clear (p ∷ ps) (suc i) zero h = h
free_at-clear (p ∷ ps) (suc i) (suc j) h = free_at-clear ps i j h

pub FreeList-clear :
    (ps : List Pin) (i : ℕ) (free : List ℕ) → FreeList ps free → FreeList (clear ps i) free
FreeList-clear ps i [] f = tt
FreeList-clear ps i (j ∷ free) f = (free_at-clear ps i j f.0, f.1, FreeList-clear ps i free f.2)

pub live_count-set :
    (ps : List Pin) (i g : ℕ) (root : Root)
    → free_at ps i ≡ true
    → live_count (set ps i (record { generation = g; root = some root })) ≡ suc (live_count ps)
live_count-set [] i g root h = cc
live_count-set (p ∷ ps) zero g root h = ground arith
live_count-set (p ∷ ps) (suc i) g root h = ground (arith, live_count-set ps i g root h)

pub live_count-append :
    (ps : List Pin) (g : ℕ) (root : Root)
    → live_count (ps ++ record { generation = g; root = some root } ∷ []) ≡ suc (live_count ps)
live_count-append [] g root = refl
live_count-append (p ∷ ps) g root = ground (arith, live_count-append ps g root)

pub live_count-clear :
    (ps : List Pin) (i : ℕ)
    → i < length ps
    → free_at ps i ≡ false
    → suc (live_count (clear ps i)) ≡ live_count ps
unfolding clear
live_count-clear [] i h e = elim h [ ]
live_count-clear (p ∷ ps) zero h e = ground arith
live_count-clear (p ∷ ps) (suc i) h e = ground (arith, live_count-clear ps i (omega arith) e)

abbrev pub emptied : List Pin → List Pin
emptied = map (λ (p : Pin). record p { root = none })

pub live_count-emptied : (ps : List Pin) → live_count (emptied ps) ≡ 0
live_count-emptied [] = refl
live_count-emptied (p ∷ ps) = live_count-emptied ps

pub length-emptied : (ps : List Pin) → length (emptied ps) ≡ length ps
length-emptied [] = refl
length-emptied (p ∷ ps) = ap suc (length-emptied ps)

free_at-emptied : (ps : List Pin) (i : ℕ) → i < length ps → free_at (emptied ps) i ≡ true
free_at-emptied [] i h = elim h [ ]
free_at-emptied (p ∷ ps) zero h = refl
free_at-emptied (p ∷ ps) (suc i) h = free_at-emptied ps i (omega arith)

pub live_count-relocate :
    (f : Root → Root) (ps : List Pin) → live_count (map (relocate_pin f) ps) ≡ live_count ps
unfolding relocate_pin
live_count-relocate f [] = refl
live_count-relocate f (p ∷ ps) = ground (arith, live_count-relocate f ps)

pub free_at-relocate :
    (f : Root → Root) (ps : List Pin) (i : ℕ) → free_at (map (relocate_pin f) ps) i ≡ free_at ps i
unfolding relocate_pin
free_at-relocate f [] i = refl
free_at-relocate f (p ∷ ps) zero = ground arith
free_at-relocate f (p ∷ ps) (suc i) = free_at-relocate f ps i

pub FreeList-relocate :
    (f : Root → Root) (ps : List Pin) (free : List ℕ)
    → FreeList ps free
    → FreeList (map (relocate_pin f) ps) free
FreeList-relocate f ps [] h = tt
FreeList-relocate f ps (i ∷ free) h =
    (rw (free_at-relocate f ps i) h.0, h.1, FreeList-relocate f ps free h.2)

-- All indices below `n` are on the list, which avoids `n` and what lies above.
Below : ℕ → List ℕ → Type 0
Below n = All (λ j. j < n)

Below-Avoids : (n : ℕ) (free : List ℕ) → Below n free → Avoids n free
unfolding Below
Below-Avoids n [] b = tt
Below-Avoids n (j ∷ free) b = (omega arith, Below-Avoids n free b.1)

Below-suc : (n : ℕ) (free : List ℕ) → Below n free → Below (suc n) free
unfolding Below
Below-suc n [] b = tt
Below-suc n (j ∷ free) b = (omega arith, Below-suc n free b.1)

FreeList-push_slots :
    (all : List Pin) (i : ℕ) (ps : List Pin) (free : List ℕ)
    → ((j : ℕ) → j < i + length ps → free_at all j ≡ true)
    → Below i free
    → FreeList all free
    → FreeList all (push_slots i ps free)
unfolding push_slots Below
FreeList-push_slots all i [] free h b f = f
FreeList-push_slots all i (p ∷ ps) free h b f =
    FreeList-push_slots all (suc i) ps (i ∷ free) (λ j hj. h j (omega arith))
      (omega arith, Below-suc i free b) (h i (omega arith), Below-Avoids i free b, f)

length-push_slots :
    (i : ℕ) (ps : List Pin) (free : List ℕ)
    → length (push_slots i ps free) ≡ length ps + length free
unfolding push_slots
length-push_slots i [] free = omega arith
length-push_slots i (p ∷ ps) free = omega (arith, length-push_slots (suc i) ps (i ∷ free))

-- After `invalidate_pins` every slot is free, once.
pub invalidated :
    (ps : List Pin)
    → FreeList (emptied ps) (push_slots 0 ps []) × (length (push_slots 0 ps []) ≡ length ps)
unfolding Below
invalidated ps = (
  FreeList-push_slots (emptied ps) 0 ps [] (λ j h. free_at-emptied ps j (omega arith)) tt tt,
  omega (arith, length-push_slots 0 ps []),
)
