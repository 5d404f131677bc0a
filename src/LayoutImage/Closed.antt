-- ===== src/LayoutImage/Closed.antt =====
-- A decoded entry and its details lie in the image.
use telora.Common.{
  ℕ, ◌+◌, ◌*◌, ◌≤◌, ◌<◌, ◌≡◌, refl, sym, inl, inr, Bool, true, false, not, ◌||◌, Option, none, some,
  List, arith, ltb, leb, ◌==◌, if◌then◌else◌, leb→le, Bool-cases, length, take, drop, u32_max,
  usize_max, checked_add, checked_mul,
}
use telora.Common.Bytes.{from_le_bytes}
use telora.LayoutImage.{
  entry_bytes, detail_bytes, differ, and_then, decode_kind, is_compile_time, is_power_of_two, Entry,
  word_at, present_id, check_entry, decode_entry, Detail, decode_detail,
}

-- What holds of a value, if there is one.
abbrev pub Gives {ℓ} : {A : Type ℓ} → (A → Type 0) → Option A → Type 0
Gives P none = Unit {0}
Gives P (some a) = P a

Gives-and_then {ℓ κ} :
    {A : Type ℓ} {B : Type κ} (P : A → Type 0) (Q : B → Type 0) (o : Option A) (f : A → Option B)
    → Gives P o
    → ((a : A) → P a → Gives Q (f a))
    → Gives Q (and_then o f)
Gives-and_then P Q none f h k = tt
Gives-and_then P Q (some a) f h k = k a h

checked_mul-Gives : (top a b : ℕ) → Gives (λ c. (c ≡ a * b) × (a * b ≤ top)) (checked_mul top a b)
checked_mul-Gives top a b = elim (Bool-cases (leb (a * b) top)) [
  | inl t ↦ rw t (refl, leb→le (a * b) top t)
  | inr t ↦ rw t tt
]

checked_add-Gives : (top a b : ℕ) → Gives (λ c. (c ≡ a + b) × (a + b ≤ top)) (checked_add top a b)
checked_add-Gives top a b = elim (Bool-cases (leb (a + b) top)) [
  | inl t ↦ rw t (refl, leb→le (a + b) top t)
  | inr t ↦ rw t tt
]

anything {ℓ} : {A : Type ℓ} (o : Option A) → Gives (λ _. Unit {0}) o
anything none = tt
anything (some a) = tt

word_at-Gives :
    (image : List ℕ) (base offset : ℕ)
    → Gives (λ w. base + offset + 4 ≤ length image) (word_at image base offset)
unfolding word_at
word_at-Gives image base offset =
    Gives-and_then (λ c. (c ≡ base + offset) × (base + offset ≤ usize_max)) _
      (checked_add usize_max base offset) _ (checked_add-Gives usize_max base offset)
      λ at (e, le). bounded at e
  where
    bounded :
        (at : ℕ)
        → at ≡ base + offset
        → Gives
            (λ w. base + offset + 4 ≤ length image)
            (if leb (at + 4) (length image)
              then some (from_le_bytes (take 4 (drop at image)))
              else none)
    bounded at e = elim (Bool-cases (leb (at + 4) (length image))) [
      | inl t ↦ rw t (omega (arith, leb→le (at + 4) (length image) t, e))
      | inr t ↦ rw t tt
    ]

-- Where the image has the word, it is read.
word_at-some :
    (image : List ℕ) (base offset : ℕ)
    → base + offset + 4 ≤ length image
    → length image ≤ usize_max
    → (w : ℕ) × (word_at image base offset ≡ some w)
unfolding word_at
word_at-some image base offset le fits =
    let small : leb (base + offset) usize_max ≡ true = ground (arith, le, fits) in
    let inside : leb (base + offset + 4) (length image) ≡ true = ground (arith, le) in
    (from_le_bytes (take 4 (drop (base + offset) image)), rw (small, inside, word_at) refl)

pub record Closed (image : List ℕ) (type_id : ℕ) (e : Entry) : Type 0 where
  pub extent : type_id * entry_bytes + entry_bytes ≤ length image
  pub details : e.detail_offset + e.detail_count * detail_bytes ≤ length image
  pub sized : (e.value_bytes == 0) ≡ is_compile_time e.kind
  pub aligned : is_power_of_two e.alignment ≡ true
  pub readable :
      (index : ℕ) → index < e.detail_count → (d : Detail) × (decode_detail image e index ≡ some d)
  pub no_more : (index : ℕ) → e.detail_count ≤ index → decode_detail image e index ≡ none

module _ (image : List ℕ) (fits : length image ≤ usize_max) (e : Entry)
    (details : e.detail_offset + e.detail_count * detail_bytes ≤ length image) where
  decode_detail-some :
      (index : ℕ) → index < e.detail_count → (d : Detail) × (decode_detail image e index ≡ some d)
  unfolding decode_detail
  decode_detail-some index lt =
      let base = e.detail_offset + index * detail_bytes in
      let inside : leb e.detail_count index ≡ false = ground (arith, lt) in
      let step : leb (index * detail_bytes) u32_max ≡ true = ground (arith, lt, details, fits) in
      let sum : leb base u32_max ≡ true = ground (arith, lt, details, fits) in
      let (ty, t) = word_at-some image base 0 (omega (arith, lt, details)) fits in
      let (tag, o) = word_at-some image base 4 (omega (arith, lt, details)) fits in
      let (flags, f) = word_at-some image base 8 (omega (arith, lt, details)) fits in
      (
        record { ty = present_id ty; offset_or_tag = tag; flags = flags },
        rw (inside, decode_detail, step, sum, t, o, f) refl,
      )

  decode_detail-none : (index : ℕ) → e.detail_count ≤ index → decode_detail image e index ≡ none
  unfolding decode_detail
  decode_detail-none index le =
      let outside : leb e.detail_count index ≡ true = ground (arith, le) in
      rw (outside, decode_detail) refl

differ_agree : (a b : Bool) → differ a b ≡ false → a ≡ b
differ_agree true true t = refl
differ_agree true false t = absurd (cc t)
differ_agree false b t = sym t

check_entry-Closed :
    (image : List ℕ) (type_id : ℕ) (e : Entry)
    → length image ≤ usize_max
    → type_id * entry_bytes + entry_bytes ≤ length image
    → Gives (Closed image type_id) (check_entry image e)
unfolding check_entry
check_entry-Closed image type_id e fits extent =
    Gives-and_then
      (λ c. (c ≡ e.detail_count * detail_bytes) × (e.detail_count * detail_bytes ≤ u32_max)) _
      (checked_mul u32_max e.detail_count detail_bytes) _
      (checked_mul-Gives u32_max e.detail_count detail_bytes)
      λ size (s, few).
        Gives-and_then (λ c. (c ≡ e.detail_offset + size) × (e.detail_offset + size ≤ u32_max)) _
          (checked_add u32_max e.detail_offset size) _
          (checked_add-Gives u32_max e.detail_offset size)
          λ details (d, small). by_tests size details s d
  where
    by_tests :
        (size details : ℕ)
        → size ≡ e.detail_count * detail_bytes
        → details ≡ e.detail_offset + size
        → Gives (Closed image type_id) (
            if differ (e.value_bytes == 0) (is_compile_time e.kind)
              || not (is_power_of_two e.alignment)
              || ltb (length image) details
            then none
            else some e)
    by_tests size details s d =
        split (differ (e.value_bytes == 0) (is_compile_time e.kind)) (is_power_of_two e.alignment)
          (ltb (length image) details) refl refl refl
      where
        split :
            (a b c : Bool)
            → differ (e.value_bytes == 0) (is_compile_time e.kind) ≡ a
            → is_power_of_two e.alignment ≡ b
            → ltb (length image) details ≡ c
            → Gives (Closed image type_id) (if a || not b || c then none else some e)
        split true b c p q r = tt
        split false false c p q r = tt
        split false true true p q r = tt
        split false true false p q r =
            let within : e.detail_offset + e.detail_count * detail_bytes ≤ length image =
              ground (arith, s, d, r) in
            record {
              extent = extent;
              details = within;
              sized = differ_agree (e.value_bytes == 0) (is_compile_time e.kind) p;
              aligned = q;
              readable = decode_detail-some image fits e within;
              no_more = decode_detail-none image fits e within;
            }

-- An entry that is decoded, from an image whose length is a `usize`, lies in the image with all its details;
-- its value has no bytes exactly if it is a compile-time one, and its alignment is a power of two; each of
-- its details can be decoded, and none beyond their count.
pub decode_entry-Closed :
    (image : List ℕ) (type_id : ℕ)
    → length image ≤ usize_max
    → Gives (Closed image type_id) (decode_entry image type_id)
unfolding decode_entry
decode_entry-Closed image type_id fits =
    Gives-and_then (λ c. (c ≡ type_id * entry_bytes) × (type_id * entry_bytes ≤ u32_max)) _
      (checked_mul u32_max type_id entry_bytes) _ (checked_mul-Gives u32_max type_id entry_bytes)
      λ base (b, few). skip (word_at image base 0) _ λ tag. skip (decode_kind tag) _ λ kind.
        skip (word_at image base 16) _ λ resource_id. skip (word_at image base 4) _ λ value_bytes.
          skip (word_at image base 8) _ λ data_bytes. skip (word_at image base 12) _ λ alignment.
            skip (word_at image base 20) _ λ detail_offset.
              skip (word_at image base 24) _ λ detail_count.
                Gives-and_then (λ w. base + 28 + 4 ≤ length image) _ (word_at image base 28) _
                  (word_at-Gives image base 28)
                  λ flags le. check_entry-Closed image type_id _ fits (omega (arith, le, b))
  where
    skip :
        {A : Type 0} (o : Option A) (f : A → Option Entry)
        → ((a : A) → Gives (Closed image type_id) (f a))
        → Gives (Closed image type_id) (and_then o f)
    skip o f k = Gives-and_then (λ _. Unit {0}) (Closed image type_id) o f (anything o) (λ a _. k a)
