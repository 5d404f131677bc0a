-- ===== src/SnapshotArtifact/Examples.antt =====
-- An artifact on a small snapshot.
use telora.Common.{
  ℕ, ◌≡◌, refl, Bool, true, ◌&&◌, List, [], ◌∷◌, ◌++◌, arith, ltb, take, u64_max, ok, err,
}
use telora.SnapshotArtifact.{
  magic, i32, i64, Snapshot, truncated, trailing_bytes, word, bytes, push_value, push_globals,
  encode, take_bytes, read_word, read_bytes, read_pattern, read_value, read_tagged, read_global,
  read_globals, decode,
}
use telora.SnapshotArtifact.Reading.{decode-encode_snapshot}

abbrev is_ascii : List ℕ → Bool
is_ascii [] = true
is_ascii (b ∷ bs) = ltb b 128 && is_ascii bs

-- The global `a` is -7.
abbrev small : Snapshot
small = record { guest = 0 ∷ 255 ∷ []; globals = (97 ∷ [], i32 0xfffffff9) ∷ (98 ∷ [], i64 1) ∷ [] }

abbrev artifact : List ℕ
artifact =
    magic
    ++ (1 ∷ 0 ∷ 0 ∷ 0 ∷ 2 ∷ 0 ∷ 0 ∷ 0 ∷ 0 ∷ 255 ∷ 2 ∷ 0 ∷ 0 ∷ 0 ∷ 1 ∷ 0 ∷ 0 ∷ 0 ∷ 97 ∷ 0 ∷ 0xf9
        ∷ 255 ∷ 255 ∷ 255 ∷ 1 ∷ 0 ∷ 0 ∷ 0 ∷ 98 ∷ 1 ∷ 1 ∷ 0 ∷ 0 ∷ 0 ∷ 0 ∷ 0 ∷ 0 ∷ 0 ∷ [])

encoded : encode small ≡ ok artifact
unfolding encode bytes word push_globals push_value
encoded = refl

cut_short : decode u64_max is_ascii (take 20 artifact) ≡ err truncated
unfolding decode take_bytes read_word read_bytes read_pattern read_value read_tagged read_global
    read_globals
cut_short = refl

too_long : decode u64_max is_ascii (artifact ++ 0 ∷ []) ≡ err trailing_bytes
unfolding decode take_bytes read_word read_bytes read_pattern read_value read_tagged read_global
    read_globals
too_long = refl

decode-encode_snapshot_example : decode u64_max is_ascii artifact ≡ ok small
decode-encode_snapshot_example =
    decode-encode_snapshot u64_max is_ascii small artifact
      ((refl, omega arith), ((refl, omega arith), tt)) encoded (omega arith)
