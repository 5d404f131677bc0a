-- ===== src/FrameScratch/Invariant.antt =====
-- What every operation of the scratch storage keeps.
use telora.Common.{
  ℕ, zero, suc, ◌+◌, ◌-◌, ◌*◌, ◌/◌, ◌^◌, ◌≤◌, ◌<◌, ◌≡◌, sym, ap, ◌∙◌, inl, inr, false, ◌&&◌, Option,
  none, some, List, [], ◌∷◌, ◌++◌, arith, leb, ◌==◌, ==→eq, Bool-cases, length, get_elem?, get_or,
  take, drop, splice, replicate, get_elem?-some, Result, ok, err,
}
use telora.FrameScratch.{transfer_base, Error, panic, Scratch, half, reference_at, check_packet}
use telora.FrameScratch.Packets.{Words}

-- The frames lie below one another, the outermost at the bottom.
abbrev pub Nested : ℕ → List ℕ → Type 0
Nested n [] = n ≡ 0
Nested n (base ∷ frames) = (base < n) × Nested base frames

-- A packet waits with the places of its references, or there is none.
abbrev pub Packed : Option ℕ → List ℕ → Type 0
Packed none transfer = transfer ≡ []
Packed (some count) transfer = count ≤ 2 * length transfer

pub record IsValid (s : Scratch) : Type 0 where
  pub bounded : length s.words < 2 ^ 27
  pub words : Words s.words
  pub transfer : Words s.transfer
  pub nested : Nested (length s.words) s.frames
  pub packed : Packed s.pending s.transfer

pub append-Words : (xs ys : List ℕ) → Words xs → Words ys → Words (xs ++ ys)
append-Words [] ys x y = y
append-Words (a ∷ xs) ys x y = (x.0, append-Words xs ys x.1 y)

pub take-Words : (n : ℕ) (xs : List ℕ) → Words xs → Words (take n xs)
take-Words zero xs w = tt
take-Words (suc n) [] w = tt
take-Words (suc n) (x ∷ xs) w = (w.0, take-Words n xs w.1)

pub drop-Words : (n : ℕ) (xs : List ℕ) → Words xs → Words (drop n xs)
drop-Words zero xs w = w
drop-Words (suc n) [] w = tt
drop-Words (suc n) (x ∷ xs) w = drop-Words n xs w.1

pub zeros-Words : (n : ℕ) → Words (replicate n 0)
zeros-Words zero = tt
zeros-Words (suc n) = (omega arith, zeros-Words n)

pub splice-Words :
    (offset : ℕ) (source xs : List ℕ) → Words source → Words xs → Words (splice offset source xs)
splice-Words offset source xs s w =
    append-Words (take offset xs) (source ++ drop (offset + length source) xs)
      (take-Words offset xs w)
      (append-Words source (drop (offset + length source) xs) s
        (drop-Words (offset + length source) xs w))

-- What the check of a packet answers: never a panic, and its references point into it.
abbrev pub Within : (n i prefix : ℕ) → List ℕ → Type 0
Within n i prefix transfer =
    (j : ℕ)
    → i ≤ j
    → j < i + n
    → transfer_base ≤ reference_at transfer j
    → reference_at transfer j < transfer_base + prefix * 8

abbrev pub Checked : Type 0 → Result (Unit {0}) Error → Type 0
Checked P (ok u) = P
Checked P (err panic) = ⊥
Checked P (err e) = Unit {0}

get_or-some : (xs : List ℕ) (i word : ℕ) → get_elem? xs i ≡ some word → get_or xs i 0 ≡ word
get_or-some [] i word e = absurd (cc e)
get_or-some (x ∷ xs) zero word e = cc e
get_or-some (x ∷ xs) (suc i) word e = get_or-some xs i word e

pub Checked-map : (P Q : Type 0) (r : Result (Unit {0}) Error) → (P → Q) → Checked P r → Checked Q r
Checked-map P Q (ok u) f h = f h
Checked-map P Q (err panic) f h = h
Checked-map P Q (err _) f h = tt

pub check_packet-Checked :
    (n i prefix : ℕ) (transfer : List ℕ)
    → i + n ≤ 2 * length transfer
    → Checked (Within n i prefix transfer) (check_packet n i prefix transfer)
unfolding check_packet
check_packet-Checked zero i prefix transfer le = λ j low high. absurd (omega (arith, low, high))
check_packet-Checked (suc n) i prefix transfer le =
    let (word, e) = get_elem?-some transfer (i / 2) (omega (arith, le)) in
    let here : half word i ≡ reference_at transfer i =
      ap (λ (x : ℕ). half x i) (sym (get_or-some transfer (i / 2) word e)) in
    elim (Bool-cases
      (leb transfer_base (half word i) && leb (prefix * 8) (half word i - transfer_base))) [
        | inl t ↦ rw (e, t, check_packet) tt
        | inr t ↦
            rw (e, t, check_packet)
              (Checked-map (Within n (i + 1) prefix transfer) (Within (suc n) i prefix transfer)
                (check_packet n (i + 1) prefix transfer)
                (λ rest j low high far. by_place word here t rest j far (omega arith) low high)
                (check_packet-Checked n (i + 1) prefix transfer (omega (arith, le))))
      ]
  where
    by_place :
        (word : ℕ)
        → half word i ≡ reference_at transfer i
        → (leb transfer_base (half word i) && leb (prefix * 8) (half word i - transfer_base))
          ≡ false
        → Within n (i + 1) prefix transfer
        → (j : ℕ) → transfer_base ≤ reference_at transfer j
        → 0 ≤ n
        → i ≤ j
        → j < i + suc n
        → reference_at transfer j < transfer_base + prefix * 8
    by_place word here t rest j far any low high = elim (Bool-cases (i == j)) [
      | inl s ↦
          let same : i ≡ j = ==→eq i j s in
          let at_j : half word i ≡ reference_at transfer j =
            here ∙ ap (λ (k : ℕ). reference_at transfer k) same in
          inside (half word i) (reference_at transfer j) at_j t far
      | inr s ↦ rest j (ground (arith, s, low)) (omega (arith, high)) far
    ]
      where
        inside :
            (r r' : ℕ)
            → r ≡ r'
            → (leb transfer_base r && leb (prefix * 8) (r - transfer_base)) ≡ false
            → transfer_base ≤ r'
            → r' < transfer_base + prefix * 8
        inside r r' e t far = ground (arith, e, t, far)
