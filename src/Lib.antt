-- ===== src/Lib.antt =====
-- Telora: the managed memory of the Wasm runtime, its hashing, and the data parser with its positions.
--
-- Telora compiles programs to Wasm modules. The crates modelled here are linked into those modules
-- and into the Host: they hold the objects of a running program, name what the Host and the
-- generated code keep alive, and carry the places in source texts that values and diagnostics
-- refer to.
--
-- * Roots models crates/telora-wasm-shared/src/gc_roots.rs. `Roots` has the fields of the struct;
--   the head of `frames` and of `free_pins` is the end of the vector. Each method is the function
--   of its name (`set_slot` is `set`, `next_generation` is `generation`, `is_current` is `current`),
--   with the next state beside its result. Roots/History has the calls as data, so that a history
--   is a list of them.
-- * Heap models crates/telora-wasm-shared/src/direct_heap.rs. An `Allocation` carries the bytes that
--   the source reaches through its pointer; `index` sorts lazily as the source does, and `locate` is
--   its binary search. `write` is `bytes_mut` with the write of its caller. Heap/View has the
--   abstract heap: which allocation owns an address. Heap/Collection composes `mark` and `sweep`.
-- * FrameScratch models crates/telora-wasm-shared/src/frame_scratch.rs, the words of the active function
--   frames. `enter` and `tail` are cut at their first change: `enter_extent` and `tail_start` have the
--   tests, `entered` the changes. FrameScratch/Adoption has the packet that a tail call hands on,
--   FrameScratch/History the calls as data.
-- * SourceRange models crates/telora-wasm-shared/src/source_range.rs, byte ranges packed in a u64.
-- * Content models crates/telora-wasm-shared/src/arena/content.rs, the 16-byte views of bytes.
-- * JsonText models crates/telora-wasm-shared/src/json_text.rs: `quoted`, with the runs that its loop
--   has not written yet, and the writer, whose panics are `none`. JsonText/Escaping reads a quoted
--   text back by the rules of JSON; JsonText/Documents drives the writer over a whole document, in
--   the order of calls that the source's tests use.
-- * JsonParse models the parser of crates/telora-data/src/json/parse.rs: a machine on a stack of frames,
--   with the raw plan of crates/telora-data/src/json/structure.rs. `check_limit` is `Parser::limit`, and
--   the loop of `parse` is cut into `step` and one function for each expectation. The scanner of
--   crates/telora-data/src/json/lexer.rs is the list of its answers; `Lexed` says in which mode it
--   answers, `Spanned` that its spans follow one another. A span that is not a range of 32-bit offsets has
--   no location, and `location` panics on it. JsonParse/Strings has `append` and `string`,
--   JsonParse/Machine the machine.
-- * Sha256 models crates/telora-sha256/src/lib.rs. `update` is `fill`, for a started block, and `absorb`;
--   `finish` pads through `seal`. Sha256/Standard has the digest of FIPS 180-4, apart from the code:
--   its constants are computed from the roots of primes.
-- * SnapshotArtifact models crates/telora-wasm-shared/src/snapshot_artifact.rs, the section that carries
--   a snapshot. The reader's methods are `take_bytes`, `read_word` and `read_bytes`; the loop bodies of
--   `encode` and `decode` are functions. Whether a name is UTF-8, and `usize::MAX`, are parameters.
-- * LayoutImage models the decoders of crates/telora-wasm-shared/src/layout_image.rs: `decode_kind`,
--   `decode_entry` and `decode_detail` are the methods `decode` of their types, `word_at` their closures.
-- * LineIndex models crates/telora-data/src/source/coordinates.rs and `byte_location` of
--   crates/telora-data/src/source.rs. A text is the list of its bytes.
-- * Common has the shared names, tests on numbers, list and byte lemmas.
--
-- A collection runs over these parts as follows: the runtime asks Roots for the roots (`iter`), marks
-- from them in Heap, and sweeps; the frames of Roots are entered and left by generated code, the
-- pins are made and released by the Host.
--
-- Bounds. The runtime is a 32-bit target, so `usize` is at most 2^32 - 1 and a layout at most
-- 2^31 - 1; the generation counter is a u64. Checked additions are written out as `checked_add`, and
-- what wraps or truncates in the source has its remainder written out. All functions are total by
-- structural recursion but for the parser's loop, which has one round for each answer of the scanner
-- and one more as its fuel.
--
-- The allocator is not part of the program: its answers, the address of zeroed storage and the
-- success or capacity of a vector's growth, are arguments of the operations (`Grant` in Roots
-- and FrameScratch, `Allocator` in Heap). Where a theorem relies on them, `Honest` says what is documented: new
-- storage overlaps no live storage, and a reservation gives at least what was asked for.
--
-- Not modelled: the compiler and its syntax, the code generation, the command line, the language
-- server and the file system access, which are glue or depend on code outside the repository; the
-- lexers, which run on automata that a macro generates; the other document parsers and the rest of the
-- runtime.
pub mod Common
pub mod SnapshotArtifact
pub mod SourceRange
pub mod Content
pub mod Roots
pub mod FrameScratch
pub mod Heap
pub mod LayoutImage
pub mod LineIndex
pub mod JsonText
pub mod Sha256
pub mod JsonParse
