-- ===== src/SnapshotArtifact/Layout.antt =====
-- The bytes of an artifact, and that `encode` writes them.
use telora.Common.{
  ℕ, ◌≤◌, ◌≡◌, refl, sym, ap, ◌∙◌, Bool, true, false, List, [], ◌∷◌, ◌++◌, append_assoc, append-nil,
  leb, leb→le, length, All, Result, u32_max, Yields, Yields-bind, ok, err,
}
use telora.Common.Bytes.{to_le_bytes}
use telora.SnapshotArtifact.{
  magic, version, GlobalValue, i32, i64, f32, f64, Snapshot, Error, field_exceeds, too_many_globals,
  require, word, bytes, push_value, push_globals, encode,
}

abbrev pub field : List ℕ → List ℕ
field xs = to_le_bytes 4 (length xs) ++ xs

abbrev pub value_bytes : GlobalValue → List ℕ
value_bytes (i32 value) = 0 ∷ to_le_bytes 4 value
value_bytes (i64 value) = 1 ∷ to_le_bytes 8 value
value_bytes (f32 value) = 2 ∷ to_le_bytes 4 value
value_bytes (f64 value) = 3 ∷ to_le_bytes 8 value

abbrev pub globals_bytes : List (List ℕ × GlobalValue) → List ℕ
globals_bytes [] = []
globals_bytes ((name, value) ∷ globals) = field name ++ (value_bytes value ++ globals_bytes globals)

abbrev pub image : Snapshot → List ℕ
image s =
    magic
    ++ (to_le_bytes 4 version
        ++ (field s.guest ++ (to_le_bytes 4 (length s.globals) ++ globals_bytes s.globals)))

-- The fields that have their lengths in 32 bits.
abbrev pub Sized : Snapshot → Type 0
Sized s =
    (length s.guest ≤ u32_max)
    × (length s.globals ≤ u32_max)
    × All (λ (name, value). length name ≤ u32_max) s.globals

require-Yields : (b : Bool) (e : Error) → Yields (λ _. b ≡ true) (require b e)
require-Yields true e = refl
require-Yields false e = tt

bytes-Yields :
    (out value : List ℕ)
    → Yields (λ out'. (out' ≡ out ++ field value) × (length value ≤ u32_max)) (bytes out value)
unfolding bytes word
bytes-Yields out value =
    Yields-bind (λ _. leb (length value) u32_max ≡ true) _
      (require (leb (length value) u32_max) field_exceeds) _
      (require-Yields (leb (length value) u32_max) field_exceeds)
      λ _ t.
        (append_assoc out (to_le_bytes 4 (length value)) value, leb→le (length value) u32_max t)

push_value_bytes :
    (out : List ℕ) (value : GlobalValue) → push_value out value ≡ out ++ value_bytes value
unfolding push_value
push_value_bytes out (i32 value) = refl
push_value_bytes out (i64 value) = refl
push_value_bytes out (f32 value) = refl
push_value_bytes out (f64 value) = refl

push_globals-Yields :
    (out : List ℕ) (globals : List (List ℕ × GlobalValue))
    → Yields
        (λ out'.
          (out' ≡ out ++ globals_bytes globals)
          × All (λ (name, value). length name ≤ u32_max) globals)
        (push_globals out globals)
unfolding push_globals
push_globals-Yields out [] = (sym (append-nil out), tt)
push_globals-Yields out ((name, value) ∷ globals) =
    Yields-bind (λ out'. (out' ≡ out ++ field name) × (length name ≤ u32_max)) _ (bytes out name) _
      (bytes-Yields out name)
      λ out' (e, small).
        further out' e small (push_globals (push_value out' value) globals)
          (push_globals-Yields (push_value out' value) globals)
  where
    further :
        (out' : List ℕ)
        → out' ≡ out ++ field name
        → length name ≤ u32_max
        → (r : Result (List ℕ) Error)
        → Yields
            (λ o.
              (o ≡ push_value out' value ++ globals_bytes globals)
              × All (λ (name, value). length name ≤ u32_max) globals)
            r
        → Yields
            (λ o.
              (o ≡ out ++ globals_bytes ((name, value) ∷ globals))
              × All (λ (name, value). length name ≤ u32_max) ((name, value) ∷ globals))
            r
    further out' e small (err x) h = tt
    further out' e small (ok o) (f, all) = (
      f
          ∙ (ap (λ (xs : List ℕ). xs ++ globals_bytes globals) (push_value_bytes out' value)
              ∙ (append_assoc out' (value_bytes value) (globals_bytes globals)
                  ∙ (ap (λ (xs : List ℕ). xs ++ (value_bytes value ++ globals_bytes globals)) e
                      ∙ append_assoc out (field name)
                          (value_bytes value ++ globals_bytes globals)))),
      (small, all),
    )

pub encode-Yields : (s : Snapshot) → Yields (λ out. (out ≡ image s) × Sized s) (encode s)
unfolding encode word
encode-Yields s =
    let start : List ℕ = magic ++ to_le_bytes 4 version in
    Yields-bind (λ out. (out ≡ start ++ field s.guest) × (length s.guest ≤ u32_max)) _
      (bytes start s.guest) _ (bytes-Yields start s.guest)
      λ out (e, small).
        Yields-bind (λ _. leb (length s.globals) u32_max ≡ true) _
          (require (leb (length s.globals) u32_max) too_many_globals) _
          (require-Yields (leb (length s.globals) u32_max) too_many_globals)
          λ _ few.
            whole out e small (leb→le (length s.globals) u32_max few)
              (push_globals (out ++ to_le_bytes 4 (length s.globals)) s.globals)
              (push_globals-Yields (out ++ to_le_bytes 4 (length s.globals)) s.globals)
  where
    whole :
        (out : List ℕ)
        → out ≡ (magic ++ to_le_bytes 4 version) ++ field s.guest
        → length s.guest ≤ u32_max
        → length s.globals ≤ u32_max
        → (r : Result (List ℕ) Error)
        → Yields
            (λ o.
              (o ≡ (out ++ to_le_bytes 4 (length s.globals)) ++ globals_bytes s.globals)
              × All (λ (name, value). length name ≤ u32_max) s.globals)
            r
        → Yields (λ o. (o ≡ image s) × Sized s) r
    whole out e small few (err x) h = tt
    whole out e small few (ok o) (f, all) = (
      f
          ∙ (append_assoc out (to_le_bytes 4 (length s.globals)) (globals_bytes s.globals)
              ∙ (ap
                    (λ (xs : List ℕ).
                      xs ++ (to_le_bytes 4 (length s.globals) ++ globals_bytes s.globals))
                    e
                  ∙ append_assoc (magic ++ to_le_bytes 4 version) (field s.guest)
                      (to_le_bytes 4 (length s.globals) ++ globals_bytes s.globals))),
      (small, few, all),
    )
