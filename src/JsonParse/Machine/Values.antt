-- ===== src/JsonParse/Machine/Values.antt =====
-- Values, separators and closing brackets keep what the machine keeps.
use mathlib.Core.Path.{subst}
use telora.Common.{
  ℕ, ◌+◌, ◌≤◌, ◌≡◌, refl, sym, ap, Bool, true, false, Option, none, some, List, [], ◌∷◌, ◌++◌,
  arith, length, All, length-append, ◌>>=◌, ok, err,
}
use telora.JsonParse.{
  Outcome, ◌>>=◌, emit, location, error, Location, Span, trailing, extra_comma, Diagnostic, panic,
  DataLimits, Container, Frame, Parser, reserve_value,
}
use telora.JsonParse.Machine.{skip_comma, trailing_comma, container_kind, close, close_after}
use telora.JsonParse.Machine.Attach.{times-append, emit-Good}
use telora.JsonParse.Machine.Conditions.{
  Bounds, Last, InRange, Placed, Separated, Owned, times, held, is_root, Waiting, Stack, Rooted,
  is_some, accepts, prepared, contained, children, Good, Ready, Kept,
}
use telora.JsonParse.Machine.Rules.{location-Ensures, error-Ensures, Ensures, Ensures-bind}
use telora.JsonParse.Machine.Slots.{Reserved, reserve_value-Reserved}

module _ (limits : Bounds) (p : Parser) (g : Good limits p) where
  -- With a frame open there is no root.
  pub framed-unrooted : (f : Frame) (fs : List Frame) → p.frames ≡ f ∷ fs → p.root ≡ none
  framed-unrooted f fs e = go p.root refl
    where
      go : (root : Option ℕ) → p.root ≡ root → p.root ≡ none
      go none k = k
      go (some id) k =
          let rooted = subst (λ r. Rooted (length p.plan.nodes) r p.frames) k g.rooted in
          absurd (cc (rooted.1, e))

  pub framed-Stack :
      (f : Frame) (fs : List Frame) → p.frames ≡ f ∷ fs → Stack (length p.plan.nodes) (f ∷ fs)
  framed-Stack f fs e = subst (Stack (length p.plan.nodes)) e g.stack

  pub framed-Waiting :
      (f : Frame) (fs : List Frame)
      → p.frames ≡ f ∷ fs
      → accepts f.container ≡ true
      → All (Waiting (length p.plan.nodes)) p.frames
  framed-Waiting f fs e ready =
      let (top, inside, rest) = framed-Stack f fs e in
      subst (All (Waiting (length p.plan.nodes))) (sym e) ((ready, inside), rest)

  -- The innermost frame with other contents of the same nodes.
  pub reframed-Good :
      (f h : Frame) (fs : List Frame)
      → p.frames ≡ f ∷ fs
      → prepared h.expect h.container h.separator ≡ true
      → contained h.container ≡ contained f.container
      → (Placed limits.low f → Placed limits.low h)
      → Good limits (record p { frames = h ∷ fs })
  reframed-Good f h fs e fits same moved =
      let (top, inside, rest) = framed-Stack f fs e in
      record {
        same_limits = g.same_limits;
        rooted = rw (framed-unrooted f fs e) tt;
        ordered = g.ordered;
        stack = (fits, rw same inside, rest);
        owned = λ id. rw (framed-unrooted f fs e) (
            omega (
              arith,
              g.owned id,
              ap (λ (fs : List Frame). times id (held fs)) e,
              ap (is_root id) (framed-unrooted f fs e),
              times-append id (contained f.container) (held fs),
              times-append id (contained h.container) (held fs),
              ap (times id) same,
            ));
        placed =
            let frames = subst (All (Placed limits.low)) e g.placed in (moved frames.0, frames.1);
        in_source = g.in_source;
        reported = omega (arith, g.reported, ap length e);
        admitted = omega (arith, g.admitted, ap length e);
        node_limit = g.node_limit;
        depth_limit = omega (arith, g.depth_limit, ap length e);
        payload_limit = g.payload_limit;
      }

  pub skip_comma-Kept :
      (span : Span) (f : Frame) (fs : List Frame)
      → p.frames ≡ f ∷ fs
      → InRange span
      → Ensures (Kept limits p) (skip_comma span p)
  unfolding skip_comma
  skip_comma-Kept span f fs e range =
      Ensures-bind (Reserved p) _ (reserve_value p span) _ (reserve_value-Reserved p span range)
        λ q (same, few, deep).
          subst (λ (q : Parser). Ensures (Kept limits p) (skipped q q.frames)) (sym same)
            (by_frames few p.frames refl)
    where
      skipped : Parser → List Frame → Outcome Parser
      skipped q frames = elim frames [
        | [] ↦ err panic
        | f ∷ fs ↦ error q span extra_comma >>= λ d. ok (record q {
          frames = record f { skipped = f.skipped + 1 } ∷ fs;
          plan = record q.plan { diagnostics = q.plan.diagnostics ++ d ∷ [] };
        })
      ]

      by_frames :
          p.nodes + 1 ≤ p.limits.nodes
          → (frames : List Frame) → p.frames ≡ frames
          → Ensures (Kept limits p) (skipped (record p { nodes = p.nodes + 1 }) frames)
      by_frames few [] k = absurd (cc (e, k))
      by_frames few (f ∷ fs) k =
          Ensures-bind (λ (d : Diagnostic). Unit {0}) (Kept limits p)
            (error (record p { nodes = p.nodes + 1 }) span extra_comma) _
            (error-Ensures (record p { nodes = p.nodes + 1 }) span extra_comma range)
            λ d _.
              let reframed =
                reframed-Good f (record f { skipped = f.skipped + 1 }) fs k (framed-Stack f fs k).0
                  refl (λ h. h) in
              (
                record {
                  same_limits = g.same_limits;
                  rooted = reframed.rooted;
                  ordered = g.ordered;
                  stack = framed-Stack f fs k;
                  owned = reframed.owned;
                  placed = reframed.placed;
                  in_source = g.in_source;
                  reported =
                      omega
                        (arith, g.reported, ap length k, length-append p.plan.diagnostics (d ∷ []));
                  admitted = omega (arith, g.admitted, ap length k);
                  node_limit = omega (arith, few, ap (λ (l : DataLimits). l.nodes) g.same_limits);
                  depth_limit = omega (arith, g.depth_limit, ap length k);
                  payload_limit = g.payload_limit;
                },
                refl,
              )

  -- The innermost frame popped, perhaps after one more diagnostic.
  popped-Ready :
      (f : Frame) (fs : List Frame) (ds : List Diagnostic)
      → p.frames ≡ f ∷ fs
      → length ds ≤ length p.plan.diagnostics + 1
      → Ready limits (record p { frames = fs; plan = record p.plan { diagnostics = ds } })
  popped-Ready f fs ds e le =
      let (top, inside, rest) = framed-Stack f fs e in
      record {
        same_limits = g.same_limits;
        unrooted = framed-unrooted f fs e;
        ordered = g.ordered;
        waiting = rest;
        placed = (subst (All (Placed limits.low)) e g.placed).1;
        in_source = g.in_source;
        reported = omega (arith, g.reported, ap length e);
        admitted = omega (arith, g.admitted, ap length e);
        node_limit = g.node_limit;
        depth_limit = omega (arith, g.depth_limit, ap length e);
        payload_limit = g.payload_limit;
      }

  children_kind : (c : Container) → children (container_kind c) ≡ contained c
  children_kind (Container.array items) = refl
  children_kind (Container.object fields pending) = refl

  -- What a frame held is loose once it is popped.
  popped-Owned :
      (f : Frame) (fs : List Frame)
      → p.frames ≡ f ∷ fs
      → Owned (length p.plan.nodes) p.plan.nodes fs (children (container_kind f.container)) none
  popped-Owned f fs e = λ id. omega (
    arith,
    g.owned id,
    ap (λ (fs : List Frame). times id (held fs)) e,
    ap (is_root id) (framed-unrooted f fs e),
    times-append id (contained f.container) (held fs),
    ap (times id) (children_kind f.container),
  )

  closed-Kept :
      (span : Span) (f : Frame) (fs : List Frame) (ds : List Diagnostic)
      → p.frames ≡ f ∷ fs
      → Last limits span
      → length ds ≤ length p.plan.diagnostics + 1
      → Ensures
          (Kept limits p)
          (close span (record p { plan = record p.plan { diagnostics = ds } }))
  unfolding close
  closed-Kept span f fs ds e (range, at_low) le = by_frames p.frames refl
    where
      o : Parser
      o = record p { plan = record p.plan { diagnostics = ds } }

      by_frames :
          (frames : List Frame)
          → p.frames ≡ frames
          → Ensures (Kept limits p) (elim frames [
            | [] ↦ err panic
            | f ∷ fs ↦ location o (record { start = f.start; end = span.end }) >>= λ loc.
                emit (container_kind f.container) loc (record o { frames = fs })
          ])
      by_frames [] k = absurd (cc (e, k))
      by_frames (f ∷ fs) k =
          let (top, inside, rest) = framed-Stack f fs k in
          let placed = subst (All (Placed limits.low)) k g.placed in
          let whole : Span = record { start = f.start; end = span.end } in
          let started : f.start ≤ span.end = omega (arith, placed.0.0, at_low) in
          Ensures-bind (λ (l : Location). l.span ≡ whole) (Kept limits p) (location o whole) _
            (location-Ensures o whole (started, range.1))
            λ loc _.
              emit-Good limits (container_kind f.container) loc (record o { frames = fs })
                (popped-Ready f fs ds k le) (rw (children_kind f.container) inside)
                (popped-Owned f fs k)

  pub close-Kept :
      (span : Span) (f : Frame) (fs : List Frame)
      → p.frames ≡ f ∷ fs
      → Last limits span
      → Ensures (Kept limits p) (close span p)
  close-Kept span f fs e last = closed-Kept span f fs p.plan.diagnostics e last (omega arith)

  pub close_after-Kept :
      (after_comma : Bool) (span : Span) (f : Frame) (fs : List Frame)
      → p.frames ≡ f ∷ fs
      → Last limits span
      → (after_comma ≡ true → is_some f.separator ≡ true)
      → Ensures (Kept limits p) (close_after after_comma span p)
  unfolding close_after trailing_comma
  close_after-Kept false span f fs e last separated = close-Kept span f fs e last
  close_after-Kept true span f fs e last separated =
      subst (λ frames. Ensures (Kept limits p) (trailed frames >>= λ q. close span q)) (sym e)
        (by_separator f.separator (separated refl) (subst (All (Placed limits.low)) e g.placed).0.1)
    where
      reported_at : Option Span → Outcome Parser
      reported_at sep = elim sep [
        | none ↦ err panic
        | some at ↦ error p at trailing >>= λ d.
            ok (record p { plan = record p.plan { diagnostics = p.plan.diagnostics ++ d ∷ [] } })
      ]

      trailed : List Frame → Outcome Parser
      trailed frames = elim frames [ [] ↦ err panic | f ∷ fs ↦ reported_at f.separator ]

      by_separator :
          (sep : Option Span)
          → is_some sep ≡ true
          → Separated limits.low sep
          → Ensures (Kept limits p) (reported_at sep >>= λ q. close span q)
      by_separator none t placed = absurd (cc t)
      by_separator (some at) t (range, near) =
          Ensures-bind
            (λ (q : Parser).
              (d : Diagnostic) × (q
                ≡ record p { plan = record p.plan { diagnostics = p.plan.diagnostics ++ d ∷ [] } }))
            (Kept limits p) (reported_at (some at)) _
            (Ensures-bind (λ (d : Diagnostic). Unit {0}) _ (error p at trailing) _
              (error-Ensures p at trailing range) λ d _. (d, refl))
            λ q (d, same).
              subst (λ q. Ensures (Kept limits p) (close span q)) (sym same)
                (closed-Kept span f fs (p.plan.diagnostics ++ d ∷ []) e last
                  (omega (arith, length-append p.plan.diagnostics (d ∷ []))))
