-- ===== src/FrameScratch.antt =====
-- crates/telora-wasm-shared/src/frame_scratch.rs: the words of the active function frames, and the
-- packet of a tail call. The head of `frames` is the innermost one. A word is a number below 2^64, a
-- reference one below 2^32.
use telora.Common.{
  ℕ, zero, suc, ◌+◌, ◌-◌, ◌*◌, ◌/◌, ◌%◌, ◌^◌, ◌≤◌, ◌<◌, min, max, bit_and, bit_or, bit_xor, ◌≡◌,
  refl, sym, ap, ◌∙◌, ◌≢◌, ◌↔◌, ◌⊎◌, inl, inr, Bool, true, false, not, ◌&&◌, ◌||◌, Option, none,
  some, List, [], ◌∷◌, ◌++◌, map, append_assoc, append-nil, arith, ltb, leb, ◌==◌, if◌then◌else◌,
  ltb→lt, lt→ltb, leb→le, le→leb, not_leb→lt, ==→eq, ==-self, tests, Bool-cases, Option-cases,
  length, get_elem?, get_or, set, take, drop, splice, replicate, All, length-append, length-set,
  length-take, length-drop, length-replicate, take-append, drop-append, take-append-drop,
  get_elem?-set_self, get_elem?-set_ne, get_elem?-append_left, get_elem?-append_last, get_elem?-lt,
  get_elem?-ge, get_elem?-some, get_elem?-take, take-set, take-take, take-append_short, take-all,
  length-splice, read-splice, Result, u32_max, u64_max, usize_max, checked_add, checked_mul, ok_or,
  ok, err,
}
pub mod Halves
pub mod Packets
pub mod Invariant
pub mod Admit
pub mod Enter
pub mod Entry
pub mod Tail
pub mod Adoption
pub mod History
mod Examples

abbrev pub scratch_base : ℕ
scratch_base = 0x80000000

abbrev pub transfer_base : ℕ
transfer_base = 0xc0000000

-- The texts of the errors, and an index out of range.
pub data Error : Type 0 where
  invalid_adoption invalid_tail_value scratch_overflow namespace_exhausted : Error
  frames_exhausted scratch_exhausted frame_underflow : Error
  invalid_packet packet_overflow outside_frame invalid_extent storage_exhausted : Error
  not_scratch invalid_reference panic : Error

pub record Scratch : Type 0 where
  pub words : List ℕ
  pub frames : List ℕ
  pub transfer : List ℕ
  pub pending : Option ℕ

pub new : Scratch
new = record { words = []; frames = []; transfer = []; pending = none }

-- What the vectors answer to `try_reserve`.
pub record Grant : Type 0 where
  pub frames : Bool
  pub words : Bool
  pub transfer : Bool

-- The low or high half of a word.
abbrev pub half : ℕ → ℕ → ℕ
half word i = word / 2 ^ (i % 2 * 32) % 2 ^ 32

-- The half of a word set to a reference, through a mask.
abbrev pub put_half : ℕ → ℕ → ℕ → ℕ
put_half word i reference =
    bit_or (bit_and word (u64_max - u32_max * 2 ^ (i % 2 * 32))) (reference * 2 ^ (i % 2 * 32))

-- The reference in place `i` of a packet.
abbrev pub reference_at : List ℕ → ℕ → ℕ
reference_at packet i = half (get_or packet (i / 2) 0) i

-- `BASE + (n * 8) as u32`
abbrev pub word_address : ℕ → ℕ
word_address n = (scratch_base + n * 8 % 2 ^ 32) % 2 ^ 32

-- The references of the packet that point into it lie in it; `n` of them are left, from place `i`.
pub check_packet : (n i prefix : ℕ) → List ℕ → Result (Unit {0}) Error
check_packet zero i prefix transfer = ok tt
check_packet (suc n) i prefix transfer =
    let rest = check_packet n (i + 1) prefix transfer in
    elim (get_elem? transfer (i / 2)) [
      | none ↦ err panic
      | some word ↦
          if leb transfer_base (half word i) && leb (prefix * 8) (half word i - transfer_base)
          then err invalid_tail_value
          else rest
    ]

-- The extents of a new frame.
pub record Extent : Type 0 where
  pub prefix : ℕ
  pub base : ℕ
  pub locals : ℕ
  pub end_word : ℕ

abbrev pub is_pending : Option ℕ → Bool
is_pending none = false
is_pending (some count) = true

abbrev pub pending_count : Option ℕ → ℕ
pending_count none = 0
pending_count (some count) = count

-- `enter` up to its first change.
pub enter_extent : Grant → (bytes args : ℕ) → Scratch → Result Extent Error
enter_extent g bytes args s =
    let adopted = args == transfer_base in
    let prefix = if adopted then length s.transfer else 0 in
    let base = length s.words in
    let locals = base + prefix + 1 in
    let end_word = locals + (bytes + 7) / 8 in
    if adopted && not (is_pending s.pending) || not adopted && is_pending s.pending
    then err invalid_adoption
    else elim (check_packet (pending_count s.pending) 0 prefix s.transfer) [
      | err e ↦ err e
      | ok u ↦
          if ltb usize_max end_word
          then err scratch_overflow
          else if leb ((transfer_base - scratch_base) / 8) end_word
          then err namespace_exhausted
          else if not g.frames
          then err frames_exhausted
          else if not g.words
          then err scratch_exhausted
          else ok (record { prefix = prefix; base = base; locals = locals; end_word = end_word })
    ]

-- A reference into the packet, where the frame at `base` adopts it.
abbrev pub relocated : ℕ → ℕ → ℕ
relocated base reference = (word_address base + (reference - transfer_base)) % 2 ^ 32

pub relocate_one : (base i : ℕ) → List ℕ → List ℕ
relocate_one base i packet =
    if leb transfer_base (reference_at packet i)
    then set packet (i / 2)
        (put_half (get_or packet (i / 2) 0) i (relocated base (reference_at packet i)))
    else packet

-- `for i in 0..count`, with the rounds that are left.
pub relocate : (n i base : ℕ) → List ℕ → List ℕ
relocate zero i base packet = packet
relocate (suc n) i base packet = relocate n (i + 1) base (relocate_one base i packet)

-- The changes of `enter`. The places of the packet were read before, so they are in range.
pub entered : Extent → ℕ → Scratch → Scratch
entered x args s =
    let resized = s.words ++ replicate (x.end_word - x.base) 0 in
    elim s.pending [
      | some count ↦ record {
        words =
            set (splice x.base (relocate count 0 x.base s.transfer) resized) (x.locals - 1)
              (word_address x.base);
        frames = x.base ∷ s.frames;
        transfer = [];
        pending = none;
      }
      | none ↦ record s { words = set resized (x.locals - 1) args; frames = x.base ∷ s.frames }
    ]

-- The address of the locals; the word before it owns the arguments.
pub enter : Grant → (bytes args : ℕ) → Scratch → Result ℕ Error × Scratch
enter g bytes args s = elim (enter_extent g bytes args s) [
  | err e ↦ (err e, s)
  | ok x ↦ (ok (word_address x.locals), entered x args s)
]

pub leave : Scratch → Result (Unit {0}) Error × Scratch
leave s = elim s.frames [
  | [] ↦ (err frame_underflow, s)
  | base ∷ frames ↦ (ok tt, record s { words = take base s.words; frames = frames })
]

-- `tail` up to its first change: where the packet starts.
pub tail_start : Grant → (packet bytes count : ℕ) → Scratch → Result ℕ Error
tail_start g packet bytes count s =
    if is_pending s.pending
      || not (leb scratch_base packet && ltb packet transfer_base)
      || not (bytes % 8 == 0)
    then err invalid_packet
    else let start = (packet - scratch_base) / 8 in
      let end_word = start + bytes / 8 in
      if ltb usize_max end_word then err packet_overflow else elim s.frames [
        | [] ↦ err outside_frame
        | frame ∷ frames ↦
            if not (packet % 8 == 0)
              || ltb start frame
              || ltb (length s.words) end_word
              || ltb (bytes / 4) count
            then err invalid_extent
            else if not g.transfer
            then err storage_exhausted
            else ok start
      ]

-- The packet is copied out and its frame left.
pub tail : Grant → (packet bytes count : ℕ) → Scratch → Result ℕ Error × Scratch
tail g packet bytes count s = elim (tail_start g packet bytes count s) [
  | err e ↦ (err e, s)
  | ok start ↦
      let copied = record s { transfer = take (bytes / 8) (drop start s.words) } in
      let (left, s') = leave copied in
      elim left [
        | err e ↦ (err e, s')
        | ok u ↦ (ok transfer_base, record s' { pending = some count })
      ]
]

-- The place in the bytes of `words`.
pub address : ℕ → Scratch → Result ℕ Error
address reference s =
    if ltb reference scratch_base
    then err not_scratch
    else if leb transfer_base reference || ltb (length s.words * 8) (reference - scratch_base)
    then err invalid_reference
    else ok (reference - scratch_base)

pub reset : Scratch → Scratch
reset s = new

pub depth : Scratch → ℕ
depth s = length s.frames
