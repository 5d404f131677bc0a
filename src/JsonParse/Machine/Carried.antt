-- ===== src/JsonParse/Machine/Carried.antt =====
-- What the machine keeps where only the scanner, the payload or the number of nodes moves on.
use mathlib.Core.Path.{subst}
use telora.Common.{
  ℕ, ◌≤◌, ◌≡◌, refl, sym, ap, ◌∙◌, false, Option, none, some, List, [], ◌∷◌, arith, length, All,
  u32_max,
}
use telora.JsonParse.{Span, Scanner, Frame, Parser}
use telora.JsonParse.Machine.Conditions.{
  Lexed, Spanned, Bounds, contained, Below, Separated, Placed, Waiting, Good, Ready, Kept, Fine,
}

pub Kept-Fine :
    (limits : Bounds) (p q : Parser)
    → Lexed false p.scanner.answers
    → Spanned limits.low p.scanner.offset p.scanner.answers
    → Kept limits p q
    → Fine limits (length p.scanner.answers) q
Kept-Fine limits p q lexed spanned (g, same) = (
  limits.low,
  g,
  subst (λ (s : Scanner). Lexed false s.answers) (sym same) lexed,
  subst (λ (s : Scanner). Spanned limits.low s.offset s.answers) (sym same) spanned,
  omega (arith, ap (λ (s : Scanner). length s.answers) same),
)

pub Placed-mono : (a b : ℕ) (fs : List Frame) → a ≤ b → All (Placed a) fs → All (Placed b) fs
Placed-mono a b [] le h = tt
Placed-mono a b (f ∷ fs) le h =
    ((omega (arith, le, h.0.0), by_separator f.separator h.0.1), Placed-mono a b fs le h.1)
  where
    by_separator : (sep : Option Span) → Separated a sep → Separated b sep
    by_separator none s = tt
    by_separator (some span) (range, near) = (range, omega (arith, le, near))

-- The scanner moves on.
pub Good-mono :
    (limits : Bounds) (low : ℕ) (p : Parser)
    → limits.low ≤ low
    → low ≤ u32_max
    → Good limits p
    → Good (record { top = limits.top; low = low }) p
Good-mono limits low p le in_source g = record {
  same_limits = g.same_limits;
  rooted = g.rooted;
  ordered = g.ordered;
  stack = g.stack;
  owned = g.owned;
  placed = Placed-mono limits.low low p.frames le g.placed;
  in_source = in_source;
  reported = g.reported;
  admitted = g.admitted;
  node_limit = g.node_limit;
  depth_limit = g.depth_limit;
  payload_limit = g.payload_limit;
}

pub Ready-mono :
    (limits : Bounds) (low : ℕ) (p : Parser)
    → limits.low ≤ low
    → low ≤ u32_max
    → Ready limits p
    → Ready (record { top = limits.top; low = low }) p
Ready-mono limits low p le in_source g = record {
  same_limits = g.same_limits;
  unrooted = g.unrooted;
  ordered = g.ordered;
  waiting = g.waiting;
  placed = Placed-mono limits.low low p.frames le g.placed;
  in_source = in_source;
  reported = g.reported;
  admitted = g.admitted;
  node_limit = g.node_limit;
  depth_limit = g.depth_limit;
  payload_limit = g.payload_limit;
}

pub Below-mono : (m n : ℕ) (ids : List ℕ) → m ≤ n → Below m ids → Below n ids
Below-mono m n [] le b = tt
Below-mono m n (id ∷ ids) le b = (omega arith, Below-mono m n ids le b.1)

pub Waiting-mono : (m n : ℕ) (fs : List Frame) → m ≤ n → All (Waiting m) fs → All (Waiting n) fs
Waiting-mono m n [] le w = tt
Waiting-mono m n (f ∷ fs) le w =
    ((w.0.0, Below-mono m n (contained f.container) le w.0.1), Waiting-mono m n fs le w.1)

-- The state `o` but for the scanner and a payload within the limit.
pub record Paid (limits : Bounds) (o q : Parser) : Type 0 where
  pub same_limits : q.limits ≡ limits.top
  pub same_frames : q.frames ≡ o.frames
  pub same_plan : q.plan ≡ o.plan
  pub same_root : q.root ≡ o.root
  pub same_nodes : q.nodes ≡ o.nodes
  pub payload_limit : q.payload ≤ limits.top.payloads_bytes

pub Paid-self :
    (limits : Bounds) (o : Parser)
    → o.limits ≡ limits.top
    → o.payload ≤ limits.top.payloads_bytes
    → Paid limits o o
Paid-self limits o e le = record {
  same_limits = e;
  same_frames = refl;
  same_plan = refl;
  same_root = refl;
  same_nodes = refl;
  payload_limit = le;
}

pub rescanned :
    (limits : Bounds) (o p : Parser) (scanner : Scanner)
    → Paid limits o p
    → Paid limits o (record p { scanner = scanner })
rescanned limits o p scanner r = record {
  same_limits = r.same_limits;
  same_frames = r.same_frames;
  same_plan = r.same_plan;
  same_root = r.same_root;
  same_nodes = r.same_nodes;
  payload_limit = r.payload_limit;
}

pub Paid-Ready :
    (limits : Bounds) (o q : Parser) → Paid limits o q → Ready limits o → Ready limits q
Paid-Ready limits o q s r = record {
  same_limits = s.same_limits;
  unrooted = s.same_root ∙ r.unrooted;
  ordered = rw s.same_plan r.ordered;
  waiting = rw (s.same_plan, s.same_frames) r.waiting;
  placed = rw s.same_frames r.placed;
  in_source = r.in_source;
  reported = rw (s.same_plan, s.same_frames, s.same_nodes) r.reported;
  admitted = rw (s.same_plan, s.same_frames, s.same_nodes) r.admitted;
  node_limit = rw s.same_nodes r.node_limit;
  depth_limit = rw s.same_frames r.depth_limit;
  payload_limit = s.payload_limit;
}

pub Paid-Good : (limits : Bounds) (o q : Parser) → Paid limits o q → Good limits o → Good limits q
Paid-Good limits o q s g = record {
  same_limits = s.same_limits;
  rooted = rw (s.same_plan, s.same_frames, s.same_root) g.rooted;
  ordered = rw s.same_plan g.ordered;
  stack = rw (s.same_plan, s.same_frames) g.stack;
  owned = rw (s.same_plan, s.same_frames, s.same_root) g.owned;
  placed = rw s.same_frames g.placed;
  in_source = g.in_source;
  reported = rw (s.same_plan, s.same_frames, s.same_nodes) g.reported;
  admitted = rw (s.same_plan, s.same_frames, s.same_nodes) g.admitted;
  node_limit = rw s.same_nodes g.node_limit;
  depth_limit = rw s.same_frames g.depth_limit;
  payload_limit = s.payload_limit;
}
