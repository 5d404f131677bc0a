-- ===== src/Sha256/Examples.antt =====
-- Runs of the digest at known inputs.
use telora.Common.{ℕ, ◌≡◌, refl, List, [], ◌∷◌, take}
use telora.Sha256.{
  hex, hex_bytes, finish, update, default, fill, absorb, seal, state_bytes, compress,
  compress_blocks, add_state, run_rounds, round, extend, block_words,
}
use telora.Sha256.Standard.{standard_digest}
use telora.Sha256.Finish.{feed, joined, stream-digest}

-- "abc", and the digest that FIPS 180-4 gives for it: ba7816bf 8f01cfea ...
hex_abc :
    take 16 (hex (97 ∷ 98 ∷ 99 ∷ []))
    ≡ 98 ∷ 97 ∷ 55 ∷ 56 ∷ 49 ∷ 54 ∷ 98 ∷ 102 ∷ 56 ∷ 102 ∷ 48 ∷ 49 ∷ 99 ∷ 102 ∷ 101 ∷ 97 ∷ []
unfolding hex hex_bytes finish update fill absorb seal state_bytes compress compress_blocks
    add_state run_rounds round extend block_words default
hex_abc = refl

-- "hello world!" in three pieces, one of them empty.
abbrev pieces : List (List ℕ)
pieces = (104 ∷ 101 ∷ 108 ∷ 108 ∷ 111 ∷ []) ∷ [] ∷ (32 ∷ 119 ∷ 111 ∷ 114 ∷ 108 ∷ 100 ∷ 33 ∷ []) ∷ []

stream-digest_example : finish (feed pieces default) ≡ standard_digest (joined pieces)
stream-digest_example = stream-digest pieces
