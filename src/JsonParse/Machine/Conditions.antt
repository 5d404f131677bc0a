-- ===== src/JsonParse/Machine/Conditions.antt =====
-- The conditions on the machine's state and on the scanner's answers.
use telora.Common.{
  ℕ, suc, ◌+◌, ◌≤◌, ◌<◌, ◌≡◌, Bool, true, false, Option, none, some, List, [], ◌∷◌, ◌++◌, ltb, ◌==◌,
  if◌then◌else◌, length, All, Result, u32_max, ok, err,
}
use telora.JsonParse.{
  Kind, q_start, q_end, text, esc_char, esc_utf16, eof, Span, Token, ScanError, StringSpan,
  DataField, RawKind, RawNode, DataLimits, Expect, value_or_end, key_or_end, separator, Container,
  Frame, Parser,
}

-- The tokens of the scanner's two modes; what follows a token is in the one mode or the other.
abbrev pub Allowed : (quoted : Bool) → Kind → (outside inside : Type 0) → Type 0
Allowed false q_start outside inside = inside
Allowed false q_end outside inside = ⊥
Allowed false (text bytes) outside inside = ⊥
Allowed false (esc_char ch) outside inside = ⊥
Allowed false (esc_utf16 unit) outside inside = ⊥
Allowed false kind outside inside = outside
Allowed true q_end outside inside = outside
Allowed true (text bytes) outside inside = inside
Allowed true (esc_char ch) outside inside = inside
Allowed true (esc_utf16 unit) outside inside = inside
Allowed true eof outside inside = inside
Allowed true kind outside inside = ⊥

-- The scanner is in its string mode from a quote to the next one.
abbrev pub Lexed : Bool → List (Result Token ScanError) → Type 0
Lexed quoted [] = Unit {0}
Lexed quoted (err e ∷ answers) = Lexed quoted answers
Lexed quoted (ok token ∷ answers) =
    Allowed quoted token.kind (Lexed false answers) (Lexed true answers)

abbrev pub InRange : Span → Type 0
InRange span = (span.start ≤ span.end) × (span.end ≤ u32_max)

-- The spans of the answers follow one another from `low` on, up to the offset where the input ends.
abbrev pub Spanned : (low offset : ℕ) → List (Result Token ScanError) → Type 0
Spanned low offset [] = (low ≤ offset) × (offset ≤ u32_max)
Spanned low offset (err e ∷ answers) = InRange e.span
Spanned low offset (ok token ∷ answers) =
    (low ≤ token.span.start) × InRange token.span × Spanned token.span.end offset answers

-- The limits of the parser, and the offset that the scanner has reached.
pub record Bounds : Type 0 where
  pub top : DataLimits
  pub low : ℕ

-- The span of the last token.
abbrev pub Last : Bounds → Span → Type 0
Last limits span = InRange span × (limits.low ≡ span.end)

-- The nodes that a node or a container refers to.
abbrev pub targets : List (StringSpan × DataField) → List ℕ
targets [] = []
targets ((name, field) ∷ fields) = field.target ∷ targets fields

abbrev pub children : RawKind → List ℕ
children (RawKind.array items) = items
children (RawKind.object fields) = targets fields
children _ = []

abbrev pub contained : Container → List ℕ
contained (Container.array items) = items
contained (Container.object fields pending) = targets fields

abbrev pub Below : ℕ → List ℕ → Type 0
Below n = All (λ id. id < n)

-- Each node refers to nodes before it.
abbrev pub Postordered : ℕ → List RawNode → Type 0
Postordered n [] = Unit {0}
Postordered n (node ∷ nodes) = Below n (children node.kind) × Postordered (suc n) nodes

abbrev pub is_some {ℓ} : {A : Type ℓ} → Option A → Bool
is_some none = false
is_some (some a) = true

-- How often a node is referred to.
abbrev pub times : ℕ → List ℕ → ℕ
times id [] = 0
times id (x ∷ xs) = (if id == x then 1 else 0) + times id xs

abbrev pub referred : List RawNode → List ℕ
referred [] = []
referred (node ∷ nodes) = children node.kind ++ referred nodes

abbrev pub held : List Frame → List ℕ
held [] = []
held (f ∷ fs) = contained f.container ++ held fs

abbrev pub is_root : ℕ → Option ℕ → ℕ
is_root id none = 0
is_root id (some root) = if id == root then 1 else 0

abbrev pub exists_below : ℕ → ℕ → ℕ
exists_below id n = if ltb id n then 1 else 0

-- Each of `n` nodes is referred to once, by a node, by a frame, by what is loose or as the root.
abbrev pub Owned : ℕ → List RawNode → List Frame → List ℕ → Option ℕ → Type 0
Owned n nodes frames loose root =
    (id : ℕ)
    → times id (referred nodes) + times id (held frames) + times id loose + is_root id root
      ≡ exists_below id n

-- A frame opened before the offset, and its separator there.
abbrev pub Separated : ℕ → Option Span → Type 0
Separated low none = Unit {0}
Separated low (some span) = InRange span × (span.end ≤ low)

abbrev pub Placed : ℕ → Frame → Type 0
Placed low f = (f.start ≤ low) × Separated low f.separator

-- A value may be attached.
abbrev pub accepts : Container → Bool
accepts (Container.array items) = true
accepts (Container.object fields pending) = is_some pending

-- What the innermost frame has ready for what it expects.
abbrev pub prepared : Expect → Container → Option Span → Bool
prepared Expect.value (Container.array items) sep = is_some sep
prepared Expect.value (Container.object fields pending) sep = is_some pending
prepared value_or_end (Container.array items) sep = true
prepared value_or_end (Container.object fields pending) sep = false
prepared Expect.key (Container.array items) sep = false
prepared Expect.key (Container.object fields pending) sep = is_some sep
prepared key_or_end (Container.array items) sep = false
prepared key_or_end (Container.object fields pending) sep = true
prepared Expect.colon (Container.array items) sep = false
prepared Expect.colon (Container.object fields pending) sep = is_some pending
prepared separator container sep = true

abbrev pub Waiting : ℕ → Frame → Type 0
Waiting n f = (accepts f.container ≡ true) × Below n (contained f.container)

abbrev pub Stack : ℕ → List Frame → Type 0
Stack n [] = Unit {0}
Stack n (f ∷ fs) =
    (prepared f.expect f.container f.separator ≡ true)
    × Below n (contained f.container)
    × All (Waiting n) fs

-- No root yet, or the root is the last node and nothing is open.
abbrev pub Rooted : ℕ → Option ℕ → List Frame → Type 0
Rooted n none fs = Unit {0}
Rooted n (some id) fs = (id + 1 ≡ n) × (fs ≡ [])

pub record Good (limits : Bounds) (p : Parser) : Type 0 where
  pub same_limits : p.limits ≡ limits.top
  pub rooted : Rooted (length p.plan.nodes) p.root p.frames
  pub ordered : Postordered 0 p.plan.nodes
  pub stack : Stack (length p.plan.nodes) p.frames
  pub owned : Owned (length p.plan.nodes) p.plan.nodes p.frames [] p.root
  pub placed : All (Placed limits.low) p.frames
  pub in_source : limits.low ≤ u32_max
  pub reported : length p.plan.diagnostics + length p.frames ≤ p.nodes
  pub admitted : length p.plan.nodes + length p.frames ≤ p.nodes
  pub node_limit : p.nodes ≤ limits.top.nodes
  pub depth_limit : length p.frames ≤ limits.top.depth
  pub payload_limit : p.payload ≤ limits.top.payloads_bytes

-- A slot is reserved for one more value, and the innermost frame waits for it.
pub record Ready (limits : Bounds) (p : Parser) : Type 0 where
  pub same_limits : p.limits ≡ limits.top
  pub unrooted : p.root ≡ none
  pub ordered : Postordered 0 p.plan.nodes
  pub waiting : All (Waiting (length p.plan.nodes)) p.frames
  pub placed : All (Placed limits.low) p.frames
  pub in_source : limits.low ≤ u32_max
  pub reported : length p.plan.diagnostics + length p.frames ≤ p.nodes
  pub admitted : length p.plan.nodes + length p.frames < p.nodes
  pub node_limit : p.nodes ≤ limits.top.nodes
  pub depth_limit : length p.frames < limits.top.depth
  pub payload_limit : p.payload ≤ limits.top.payloads_bytes

-- A good state with the scanner where it was.
abbrev pub Kept : Bounds → Parser → Parser → Type 0
Kept limits p q = Good limits q × (q.scanner ≡ p.scanner)

-- A good state outside strings, with at most `k` answers of the scanner left.
abbrev pub Fine : Bounds → ℕ → Parser → Type 0
Fine limits k q =
    (low : ℕ) × Good (record { top = limits.top; low = low }) q
    × Lexed false q.scanner.answers
    × Spanned low q.scanner.offset q.scanner.answers
    × (length q.scanner.answers ≤ k)
