-- ===== src/SnapshotArtifact/Reading.antt =====
-- `decode` reads back what `encode` writes.
use mathlib.Core.Path.{subst}
use telora.Common.{
  ℕ, ◌+◌, ◌-◌, ◌*◌, ◌/◌, ◌^◌, ◌≤◌, ◌<◌, ◌≡◌, refl, sym, ap, ◌∙◌, Bool, true, false, List, [], ◌∷◌,
  ◌++◌, append_assoc, append-nil, arith, ltb, leb, ◌==◌, length, take, drop, All, length-append,
  take-append, drop-append, Result, u32_max, Yields, ok,
}
use telora.Common.Bytes.{to_le_bytes, length-to_le_bytes, from_le_bytes-to_le_bytes}
use telora.SnapshotArtifact.{
  magic, version, GlobalValue, i32, i64, f32, f64, Snapshot, Error, encode, Reader, take_bytes,
  read_word, read_bytes, read_pattern, read_value, read_tagged, read_global, read_globals, decode,
}
use telora.SnapshotArtifact.Layout.{field, value_bytes, globals_bytes, image, Sized, encode-Yields}

-- The patterns of the values have their widths.
abbrev pub IsPattern : GlobalValue → Type 0
IsPattern (i32 value) = value < 2 ^ 32
IsPattern (i64 value) = value < 2 ^ 64
IsPattern (f32 value) = value < 2 ^ 32
IsPattern (f64 value) = value < 2 ^ 64

module _ (usize_top : ℕ) (input : List ℕ) (fits : length input ≤ usize_top) where
  abbrev reader : ℕ → Reader
  reader n = record { input = input; at = n }

  -- What is left of the input.
  abbrev Before : ℕ → List ℕ → Type 0
  Before n rest = (pre : List ℕ) × (input ≡ pre ++ rest) × (n ≡ length pre)

  -- An operation reads a value and stands before the rest.
  abbrev Reads {ℓ} : {A : Type ℓ} → (Reader → Result (A × Reader) Error) → ℕ → A → List ℕ → Type ℓ
  Reads op n value rest = (m : ℕ) × (op (reader n) ≡ ok (value, reader m)) × Before m rest

  Before-length : (n : ℕ) (rest : List ℕ) → Before n rest → length input ≡ n + length rest
  Before-length n rest (pre, e, at) = omega (arith, ap length e, length-append pre rest, at)

  take_bytes-Reads :
      (len n : ℕ) (xs rest : List ℕ)
      → len ≡ length xs
      → Before n (xs ++ rest)
      → Reads (take_bytes usize_top len) n xs rest
  unfolding take_bytes
  take_bytes-Reads len n xs rest e (pre, split, at) =
      let whole = Before-length n (xs ++ rest) (pre, split, at) in
      let few : leb (n + len) usize_top ≡ true =
        ground (arith, whole, length-append xs rest, e, fits) in
      let inside : ltb (length input) (n + len) ≡ false =
        ground (arith, whole, length-append xs rest, e) in
      let dropped : drop n input ≡ xs ++ rest =
        ap (λ (ys : List ℕ). drop n ys) split ∙ drop-append pre (xs ++ rest) n at in
      let read : take len (drop n input) ≡ xs =
        ap (λ (ys : List ℕ). take len ys) dropped ∙ take-append xs rest len e in
      (
        n + len,
        rw (few, inside, take_bytes) (ap (λ (ys : List ℕ). ok (ys, reader (n + len))) read),
        (
          pre ++ xs,
          split ∙ sym (append_assoc pre xs rest),
          omega (arith, length-append pre xs, at, e),
        ),
      )

  read_word-Reads :
      (n value : ℕ) (rest : List ℕ)
      → value ≤ u32_max
      → Before n (to_le_bytes 4 value ++ rest)
      → Reads (read_word usize_top) n value rest
  unfolding read_word
  read_word-Reads n value rest small before =
      let (m, e, after) = take_bytes-Reads 4 n (to_le_bytes 4 value) rest refl before in
      (
        m,
        rw (e, read_word)
            (ap (λ (v : ℕ). ok (v, reader m))
              (from_le_bytes-to_le_bytes 4 value (omega (arith, small)))),
        after,
      )

  read_bytes-Reads :
      (n : ℕ) (xs rest : List ℕ)
      → length xs ≤ u32_max
      → Before n (field xs ++ rest)
      → Reads (read_bytes usize_top) n xs rest
  unfolding read_bytes
  read_bytes-Reads n xs rest small before =
      let (m, e, after) = read_word-Reads n (length xs) (xs ++ rest) small before in
      let (k, f, last) = take_bytes-Reads (length xs) m xs rest refl after in
      (k, rw (e, read_bytes, f) refl, last)

  read_pattern-Reads :
      (len n value : ℕ) (make : ℕ → GlobalValue) (rest : List ℕ)
      → value < 256 ^ len
      → Before n (to_le_bytes len value ++ rest)
      → Reads (read_pattern usize_top len make) n (make value) rest
  unfolding read_pattern
  read_pattern-Reads len n value make rest small before =
      let (m, e, after) =
        take_bytes-Reads len n (to_le_bytes len value) rest (sym (length-to_le_bytes len value))
          before in
      (
        m,
        rw (e, read_pattern)
            (ap (λ (v : ℕ). ok (make v, reader m)) (from_le_bytes-to_le_bytes len value small)),
        after,
      )

  -- A tag and its value.
  read_tagged-Reads :
      (n : ℕ) (value : GlobalValue) (rest : List ℕ)
      → IsPattern value
      → Before n (value_bytes value ++ rest)
      → Reads (read_tagged usize_top) n value rest
  unfolding read_tagged read_value
  read_tagged-Reads n (i32 value) rest small before =
      let (m, e, after) = take_bytes-Reads 1 n (0 ∷ []) (to_le_bytes 4 value ++ rest) refl before in
      let (k, f, last) = read_pattern-Reads 4 m value i32 rest small after in
      (k, rw (e, read_tagged, read_value) f, last)
  read_tagged-Reads n (i64 value) rest small before =
      let (m, e, after) = take_bytes-Reads 1 n (1 ∷ []) (to_le_bytes 8 value ++ rest) refl before in
      let (k, f, last) = read_pattern-Reads 8 m value i64 rest small after in
      (k, rw (e, read_tagged, read_value) f, last)
  read_tagged-Reads n (f32 value) rest small before =
      let (m, e, after) = take_bytes-Reads 1 n (2 ∷ []) (to_le_bytes 4 value ++ rest) refl before in
      let (k, f, last) = read_pattern-Reads 4 m value f32 rest small after in
      (k, rw (e, read_tagged, read_value) f, last)
  read_tagged-Reads n (f64 value) rest small before =
      let (m, e, after) = take_bytes-Reads 1 n (3 ∷ []) (to_le_bytes 8 value ++ rest) refl before in
      let (k, f, last) = read_pattern-Reads 8 m value f64 rest small after in
      (k, rw (e, read_tagged, read_value) f, last)

  module _ (is_utf8 : List ℕ → Bool) where
    -- What the names and values of globals have: names of Rust's strings, and values of their widths.
    abbrev pub IsGlobal : List ℕ × GlobalValue → Type 0
    IsGlobal (name, value) = (is_utf8 name ≡ true) × IsPattern value

    read_global-Reads :
        (n : ℕ) (name : List ℕ) (value : GlobalValue) (rest : List ℕ)
        → length name ≤ u32_max
        → IsGlobal (name, value)
        → Before n (field name ++ (value_bytes value ++ rest))
        → Reads (read_global usize_top is_utf8) n (name, value) rest
    unfolding read_global
    read_global-Reads n name value rest small (valid, pattern_fits) before =
        let (m, e, after) = read_bytes-Reads n name (value_bytes value ++ rest) small before in
        let (k, f, last) = read_tagged-Reads m value rest pattern_fits after in
        (k, rw (e, read_global, valid, f) refl, last)

    read_globals-Reads :
        (n : ℕ) (globals : List (List ℕ × GlobalValue)) (rest : List ℕ)
        → All (λ (name, value). length name ≤ u32_max) globals
        → All IsGlobal globals
        → Before n (globals_bytes globals ++ rest)
        → Reads (read_globals usize_top is_utf8 (length globals)) n globals rest
    unfolding read_globals
    read_globals-Reads n [] rest small valid before = (n, refl, before)
    read_globals-Reads n ((name, value) ∷ globals) rest small valid before =
        let shift : globals_bytes ((name, value) ∷ globals) ++ rest
            ≡ field name ++ (value_bytes value ++ (globals_bytes globals ++ rest)) =
          append_assoc (field name) (value_bytes value ++ globals_bytes globals) rest
          ∙ ap (λ (xs : List ℕ). field name ++ xs)
              (append_assoc (value_bytes value) (globals_bytes globals) rest) in
        let (m, e, after) =
          read_global-Reads n name value (globals_bytes globals ++ rest) small.0 valid.0
            (subst (λ xs. Before n xs) shift before) in
        let (k, f, last) = read_globals-Reads m globals rest small.1 valid.1 after in
        (k, rw (e, read_globals, f) refl, last)

length-value_bytes : (value : GlobalValue) → 5 ≤ length (value_bytes value)
length-value_bytes (i32 value) = omega arith
length-value_bytes (i64 value) = omega arith
length-value_bytes (f32 value) = omega arith
length-value_bytes (f64 value) = omega arith

length-globals_bytes :
    (globals : List (List ℕ × GlobalValue)) → 9 * length globals ≤ length (globals_bytes globals)
length-globals_bytes [] = omega arith
length-globals_bytes ((name, value) ∷ globals) = omega (
  arith,
  length-append (field name) (value_bytes value ++ globals_bytes globals),
  length-append (value_bytes value) (globals_bytes globals),
  length-value_bytes value,
  length-globals_bytes globals,
)

decode-image :
    (usize_top : ℕ) (is_utf8 : List ℕ → Bool) (s : Snapshot) (input : List ℕ)
    → input ≡ image s
    → Sized s
    → All (λ (name, value). (is_utf8 name ≡ true) × IsPattern value) s.globals
    → length input ≤ usize_top
    → decode usize_top is_utf8 input ≡ ok s
unfolding decode
decode-image usize_top is_utf8 s input e (guest_small, few, small) valid fits =
    let globals : List ℕ = globals_bytes s.globals in
    let count : List ℕ = to_le_bytes 4 (length s.globals) in
    let (m1, e1, b1) =
      take_bytes-Reads usize_top input fits 8 0 magic
        (to_le_bytes 4 version ++ (field s.guest ++ (count ++ globals))) refl ([], e, refl) in
    let (m2, e2, b2) =
      read_word-Reads usize_top input fits m1 version (field s.guest ++ (count ++ globals))
        (omega arith) b1 in
    let (m3, e3, b3) =
      read_bytes-Reads usize_top input fits m2 s.guest (count ++ globals) guest_small b2 in
    let (m4, e4, b4) = read_word-Reads usize_top input fits m3 (length s.globals) globals few b3 in
    let (m5, e5, b5) =
      read_globals-Reads usize_top input fits is_utf8 m4 s.globals [] small valid
        (subst (λ xs. Before usize_top input fits m4 xs) (sym (append-nil globals)) b4) in
    let room : leb (length s.globals) ((length input - m4) / 9) ≡ true =
      ground
        (arith, Before-length usize_top input fits m4 globals b4, length-globals_bytes s.globals) in
    let ended : (m5 == length input) ≡ true =
      ground (arith, Before-length usize_top input fits m5 [] b5) in
    rw (e1, decode, e2, e3, e4, room, e5, ended) refl

-- A snapshot whose names are valid UTF-8, and whose values have the widths of their types, is read back by
-- `decode` from the bytes that `encode` gives for it, if those are no more than a `usize` can count.
pub decode-encode_snapshot :
    (usize_top : ℕ) (is_utf8 : List ℕ → Bool) (s : Snapshot) (out : List ℕ)
    → All (λ (name, value). (is_utf8 name ≡ true) × IsPattern value) s.globals
    → encode s ≡ ok out
    → length out ≤ usize_top
    → decode usize_top is_utf8 out ≡ ok s
decode-encode_snapshot usize_top is_utf8 s out valid e fits =
    let (same, sized) = subst (Yields (λ out. (out ≡ image s) × Sized s)) e (encode-Yields s) in
    decode-image usize_top is_utf8 s out same sized valid fits
