-- ===== src/FrameScratch/Packets.antt =====
-- Relocation of the references of a packet.
use mathlib.Core.Path.{subst}
use telora.Common.{
  ℕ, zero, suc, ◌+◌, ◌*◌, ◌/◌, ◌%◌, ◌^◌, ◌≤◌, ◌<◌, ◌≡◌, refl, sym, ap, ◌∙◌, ◌≢◌, ◌⊎◌, inl, inr,
  true, false, ◌&&◌, List, [], ◌∷◌, arith, ltb, leb, ◌==◌, if◌then◌else◌, ==→eq, Bool-cases, length,
  get_or, set, All, length-set,
}
use telora.FrameScratch.{
  transfer_base, half, put_half, reference_at, relocated, relocate_one, relocate,
}
use telora.FrameScratch.Halves.{put_half_halves}

pub get_or-set_self : (xs : List ℕ) (i v d : ℕ) → i < length xs → get_or (set xs i v) i d ≡ v
get_or-set_self [] i v d lt = absurd (omega (arith, lt))
get_or-set_self (x ∷ xs) zero v d lt = refl
get_or-set_self (x ∷ xs) (suc i) v d lt = get_or-set_self xs i v d (omega (arith, lt))

pub get_or-set_ne : (xs : List ℕ) (i j v d : ℕ) → i ≢ j → get_or (set xs i v) j d ≡ get_or xs j d
get_or-set_ne [] i j v d ne = refl
get_or-set_ne (x ∷ xs) zero zero v d ne = absurd (ne refl)
get_or-set_ne (x ∷ xs) zero (suc j) v d ne = refl
get_or-set_ne (x ∷ xs) (suc i) zero v d ne = refl
get_or-set_ne (x ∷ xs) (suc i) (suc j) v d ne = get_or-set_ne xs i j v d (λ e. ne (ap suc e))

abbrev pub Words : List ℕ → Type 0
Words = All (λ word. word < 2 ^ 64)

pub set-Words : (xs : List ℕ) (i v : ℕ) → Words xs → v < 2 ^ 64 → Words (set xs i v)
set-Words [] i v w lt = tt
set-Words (x ∷ xs) zero v w lt = (lt, w.1)
set-Words (x ∷ xs) (suc i) v w lt = (w.0, set-Words xs i v w.1 lt)

get_or-Words : (xs : List ℕ) (i : ℕ) → Words xs → get_or xs i 0 < 2 ^ 64
get_or-Words [] i w = omega arith
get_or-Words (x ∷ xs) zero w = w.0
get_or-Words (x ∷ xs) (suc i) w = get_or-Words xs i w.1

-- Where a reference of the packet leads after the frame at `base` has adopted it.
abbrev pub moved : ℕ → ℕ → ℕ
moved base reference = if leb transfer_base reference then relocated base reference else reference

relocate_one-Words :
    (base i : ℕ) (packet : List ℕ) → Words packet → Words (relocate_one base i packet)
unfolding relocate_one
relocate_one-Words base i packet w = elim (Bool-cases (leb transfer_base (reference_at packet i))) [
  | inl e ↦
      rw (e, relocate_one)
        (set-Words packet (i / 2) _ w
          (put_half_halves (get_or packet (i / 2) 0) i (relocated base (reference_at packet i))
            (get_or-Words packet (i / 2) w) (omega arith)).0)
  | inr e ↦ rw (e, relocate_one) w
]

length-relocate_one :
    (base i : ℕ) (packet : List ℕ) → length (relocate_one base i packet) ≡ length packet
unfolding relocate_one
length-relocate_one base i packet = elim (Bool-cases (leb transfer_base (reference_at packet i))) [
  | inl e ↦ rw (e, relocate_one) (length-set packet (i / 2) _)
  | inr e ↦ rw (e, relocate_one) refl
]

-- The place itself.
relocate_one_self :
    (base i : ℕ) (packet : List ℕ)
    → Words packet
    → i / 2 < length packet
    → reference_at (relocate_one base i packet) i ≡ moved base (reference_at packet i)
unfolding relocate_one
relocate_one_self base i packet w lt =
    elim (Bool-cases (leb transfer_base (reference_at packet i))) [
      | inl e ↦
          let (whole, same, other) =
            put_half_halves (get_or packet (i / 2) 0) i (relocated base (reference_at packet i))
              (get_or-Words packet (i / 2) w) (omega arith) in
          rw (e, relocate_one)
            (ap (λ (x : ℕ). half x i) (get_or-set_self packet (i / 2) _ 0 lt) ∙ same)
      | inr e ↦ rw (e, relocate_one) refl
    ]

apart_from : (i j : ℕ) → (i == j) ≡ false → i ≢ j
apart_from i j t = λ e. absurd (ground (arith, t, e))

-- Every other place.
relocate_one_other :
    (base i j : ℕ) (packet : List ℕ)
    → Words packet
    → i / 2 < length packet
    → i ≢ j
    → reference_at (relocate_one base i packet) j ≡ reference_at packet j
unfolding relocate_one
relocate_one_other base i j packet w lt ne =
    elim (Bool-cases (leb transfer_base (reference_at packet i))) [
      | inl e ↦ elim (Bool-cases (i / 2 == j / 2)) [
        | inl h ↦
            let here : i / 2 ≡ j / 2 = ==→eq (i / 2) (j / 2) h in
            let turn : (i + 1) % 2 ≡ j % 2 = omega (arith, here, ne) in
            let word = get_or packet (i / 2) 0 in
            let put = put_half word i (relocated base (reference_at packet i)) in
            let (whole, same, other) =
              put_half_halves word i (relocated base (reference_at packet i))
                (get_or-Words packet (i / 2) w) (omega arith) in
            rw (e, relocate_one)
              (ap (λ (k : ℕ). half (get_or (set packet (i / 2) put) k 0) j) (sym here)
                ∙ (ap (λ (x : ℕ). half x j) (get_or-set_self packet (i / 2) put 0 lt)
                    ∙ (ap (λ (k : ℕ). put / 2 ^ (k * 32) % 2 ^ 32) (sym turn)
                        ∙ (other
                            ∙ (ap (λ (k : ℕ). word / 2 ^ (k * 32) % 2 ^ 32) turn
                                ∙ ap (λ (k : ℕ). half (get_or packet k 0) j) here)))))
        | inr h ↦
            let apart : i / 2 ≢ j / 2 = λ same. apart_from (i / 2) (j / 2) h same in
            rw (e, relocate_one)
              (ap (λ (x : ℕ). half x j) (get_or-set_ne packet (i / 2) (j / 2) _ 0 apart))
      ]
      | inr e ↦ rw (e, relocate_one) refl
    ]

-- What the references of a packet become, where `n` of them are left from place `i`.
abbrev pub Moved : (n i base : ℕ) (packet packet' : List ℕ) → Type 0
Moved n i base packet packet' =
    (j : ℕ)
    → reference_at packet' j ≡ (
        if leb i j && ltb j (i + n)
        then moved base (reference_at packet j)
        else reference_at packet j)

pub relocate-Moved :
    (n i base : ℕ) (packet : List ℕ)
    → Words packet
    → i + n ≤ 2 * length packet
    → Moved n i base packet (relocate n i base packet)
      × Words (relocate n i base packet)
      × (length (relocate n i base packet) ≡ length packet)
unfolding relocate
relocate-Moved zero i base packet w le = ((λ j. none_left j), w, refl)
  where
    none_left :
        (j : ℕ)
        → reference_at packet j ≡ (
            if leb i j && ltb j (i + 0)
            then moved base (reference_at packet j)
            else reference_at packet j)
    none_left j = elim (Bool-cases (leb i j && ltb j (i + 0))) [
      | inl t ↦ absurd (ground (arith, t))
      | inr t ↦ rw t refl
    ]
relocate-Moved (suc n) i base packet w le =
    let one = relocate_one base i packet in
    let len = length-relocate_one base i packet in
    let (rest, words, kept) =
      relocate-Moved n (i + 1) base one (relocate_one-Words base i packet w)
        (omega (arith, le, len)) in
    ((λ j. rest j ∙ by_place j (compared i j)), words, kept ∙ len)
  where
    compared : (i j : ℕ) → (i ≡ j) ⊎ (i ≢ j)
    compared i j = elim (Bool-cases (i == j)) [
      | inl t ↦ inl (==→eq i j t)
      | inr t ↦ inr (apart_from i j t)
    ]

    by_place :
        (j : ℕ)
        → (i ≡ j) ⊎ (i ≢ j)
        → (if leb (i + 1) j && ltb j (i + 1 + n)
            then moved base (reference_at (relocate_one base i packet) j)
            else reference_at (relocate_one base i packet) j)
          ≡ (if leb i j && ltb j (i + suc n)
              then moved base (reference_at packet j)
              else reference_at packet j)
    by_place j (inl e) =
        let past : (leb (i + 1) j && ltb j (i + 1 + n)) ≡ false = ground (arith, e) in
        let at : (leb i j && ltb j (i + suc n)) ≡ true = ground (arith, e) in
        let self = relocate_one_self base i packet w (omega (arith, le)) in
        rw (past, at)
          (subst
            (λ k. reference_at (relocate_one base i packet) k ≡ moved base (reference_at packet k))
            e self)
    by_place j (inr ne) =
        let same : (leb (i + 1) j && ltb j (i + 1 + n)) ≡ (leb i j && ltb j (i + suc n)) =
          ground (arith, ne) in
        rw (same, relocate_one_other base i j packet w (omega (arith, le)) ne) refl
