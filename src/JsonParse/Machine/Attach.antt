-- ===== src/JsonParse/Machine/Attach.antt =====
-- A node pushed and attached keeps what the machine keeps.
use mathlib.Core.Path.{subst}
use telora.Common.{
  ℕ, suc, ◌+◌, ◌<◌, ◌≡◌, refl, sym, ap, ◌∙◌, true, none, some, List, [], ◌∷◌, ◌++◌, arith, ◌==◌,
  if◌then◌else◌, length, All, length-append,
}
use telora.JsonParse.{
  Location, StringSpan, DataField, RawKind, RawNode, RawPlan, separator, Container, Frame, Parser,
  attach, emit, push_node,
}
use telora.JsonParse.Machine.Conditions.{
  Bounds, times, referred, held, exists_below, Owned, Placed, Waiting, Below, Postordered, accepts,
  contained, children, targets, Good, Ready, Kept,
}
use telora.JsonParse.Machine.Rules.{Ensures}
use telora.JsonParse.Machine.Carried.{Below-mono, Waiting-mono}

Below-append : (n : ℕ) (ids : List ℕ) (id : ℕ) → Below n ids → id < n → Below n (ids ++ id ∷ [])
Below-append n [] id b lt = (lt, tt)
Below-append n (x ∷ ids) id b lt = (b.0, Below-append n ids id b.1 lt)

targets-append :
    (fields : List (StringSpan × DataField)) (name : StringSpan) (field : DataField)
    → targets (fields ++ (name, field) ∷ []) ≡ targets fields ++ field.target ∷ []
targets-append [] name field = refl
targets-append ((s, f) ∷ fields) name field =
    ap (λ (t : List ℕ). f.target ∷ t) (targets-append fields name field)

Postordered-append :
    (n : ℕ) (nodes : List RawNode) (node : RawNode)
    → Postordered n nodes
    → Below (n + length nodes) (children node.kind)
    → Postordered n (nodes ++ node ∷ [])
Postordered-append n [] node o b = (Below-mono (n + 0) n (children node.kind) (omega arith) b, tt)
Postordered-append n (x ∷ nodes) node o b = (
  o.0,
  Postordered-append (suc n) nodes node o.1 (
      Below-mono (n + suc (length nodes)) (suc n + length nodes) (children node.kind) (omega arith)
        b),
)

pub times-append : (id : ℕ) (xs ys : List ℕ) → times id (xs ++ ys) ≡ times id xs + times id ys
times-append id [] ys = omega arith
times-append id (x ∷ xs) ys = omega (arith, times-append id xs ys)

times-referred_append :
    (id : ℕ) (nodes : List RawNode) (node : RawNode)
    → times id (referred (nodes ++ node ∷ []))
      ≡ times id (referred nodes) + times id (children node.kind)
times-referred_append id [] node = times-append id (children node.kind) [] ∙ omega arith
times-referred_append id (x ∷ nodes) node = omega (
  arith,
  times-append id (children x.kind) (referred (nodes ++ node ∷ [])),
  times-append id (children x.kind) (referred nodes),
  times-referred_append id nodes node,
)

one_more : (id n : ℕ) → exists_below id (n + 1) ≡ exists_below id n + (if id == n then 1 else 0)
one_more id n = ground arith

-- The plan with one more node.
module _ (limits : Bounds) (kind : RawKind) (loc : Location) (p : Parser) (r : Ready limits p)
    (b : Below (length p.plan.nodes) (children kind))
    (loose : Owned (length p.plan.nodes) p.plan.nodes p.frames (children kind) none) where
  abbrev node : RawNode
  node = record { kind = kind; location = loc }

  abbrev pushed : RawPlan
  pushed = record p.plan { nodes = p.plan.nodes ++ node ∷ [] }

  pushed_len : length pushed.nodes ≡ length p.plan.nodes + 1
  pushed_len = length-append p.plan.nodes (node ∷ [])

  pushed-Postordered : Postordered 0 pushed.nodes
  pushed-Postordered =
      Postordered-append 0 p.plan.nodes node r.ordered
        (Below-mono (length p.plan.nodes) (0 + length p.plan.nodes) (children kind) (omega arith) b)

  -- The root of the plan.
  root-Good :
      p.frames ≡ [] → Good limits (record p { plan = pushed; root = some (length p.plan.nodes) })
  root-Good e = record {
    same_limits = r.same_limits;
    rooted = (sym pushed_len, e);
    ordered = pushed-Postordered;
    stack = rw e tt;
    owned = λ id. rw pushed_len (
        omega (
          arith,
          loose id,
          one_more id (length p.plan.nodes),
          times-referred_append id p.plan.nodes node,
          ap (λ (fs : List Frame). times id (held fs)) e,
        ));
    placed = r.placed;
    in_source = r.in_source;
    reported = omega (arith, r.reported, ap length e);
    admitted = omega (arith, r.admitted, pushed_len, ap length e);
    node_limit = r.node_limit;
    depth_limit = omega (arith, r.depth_limit);
    payload_limit = r.payload_limit;
  }

  -- The innermost frame takes the node.
  taken-Good :
      (f g : Frame) (fs : List Frame)
      → p.frames ≡ f ∷ fs
      → contained g.container ≡ contained f.container ++ length p.plan.nodes ∷ []
      → g.expect ≡ separator
      → (Placed limits.low f → Placed limits.low g)
      → Good limits (record p { plan = pushed; frames = g ∷ fs })
  taken-Good f g fs e taken expects moved =
      let all = subst (All (Waiting (length p.plan.nodes))) e r.waiting in
      record {
        same_limits = r.same_limits;
        rooted = rw r.unrooted tt;
        ordered = pushed-Postordered;
        stack =
            rw (expects, pushed_len)
              (
                refl,
                rw taken (
                    Below-append (length p.plan.nodes + 1) (contained f.container)
                      (length p.plan.nodes)
                      (Below-mono (length p.plan.nodes) (length p.plan.nodes + 1)
                        (contained f.container) (omega arith) all.0.1)
                      (omega arith)),
                Waiting-mono (length p.plan.nodes) (length p.plan.nodes + 1) fs (omega arith) all.1,
              );
        owned = λ id.
            rw (pushed_len, r.unrooted)
              (omega (
                arith,
                loose id,
                one_more id (length p.plan.nodes),
                times-referred_append id p.plan.nodes node,
                ap (λ (fs : List Frame). times id (held fs)) e,
                times-append id (contained f.container) (held fs),
                times-append id (contained g.container) (held fs),
                ap (times id) taken,
                times-append id (contained f.container) (length p.plan.nodes ∷ []),
              ));
        placed =
            let frames = subst (All (Placed limits.low)) e r.placed in (moved frames.0, frames.1);
        in_source = r.in_source;
        reported = omega (arith, r.reported, ap length e);
        admitted = omega (arith, r.admitted, pushed_len, ap length e);
        node_limit = r.node_limit;
        depth_limit = omega (arith, r.depth_limit, ap length e);
        payload_limit = r.payload_limit;
      }

  attach-Good :
      (fs : List Frame)
      → p.frames ≡ fs
      → Ensures (Kept limits p) (attach (length p.plan.nodes) (record p { plan = pushed }))
  unfolding attach
  attach-Good [] e = rw (e, attach) (root-Good e, refl)
  attach-Good (f ∷ fs) e = by_container f.container refl
    where
      n : ℕ
      n = length p.plan.nodes

      by_container :
          (c : Container)
          → f.container ≡ c
          → Ensures (Kept limits p) (attach n (record p { plan = pushed }))
      by_container (Container.array items) k =
          rw (e, k, attach)
            (
              taken-Good f
                  (record f { container = Container.array (items ++ n ∷ []); expect = separator })
                  fs e (rw k refl) refl (λ h. h),
              refl,
            )
      by_container (Container.object fields none) k =
          let all = subst (All (Waiting n)) e r.waiting in
          let full : accepts (Container.object fields none) ≡ true =
            subst (λ c. accepts c ≡ true) k all.0.0 in
          absurd (cc full)
      by_container (Container.object fields (some (name, key_location))) k =
          rw (e, k, attach)
            (
              taken-Good f
                  (record f {
                    container =
                        Container.object
                          (fields
                            ++ (name, record { key_location = key_location; target = n }) ∷ [])
                          none;
                    expect = separator;
                  })
                  fs e
                  (targets-append fields name (record { key_location = key_location; target = n })
                    ∙ rw k refl)
                  refl (λ h. h),
              refl,
            )

-- A value that fills its slot, with its children loose before.
pub emit-Good :
    (limits : Bounds) (kind : RawKind) (loc : Location) (p : Parser)
    → Ready limits p
    → Below (length p.plan.nodes) (children kind)
    → Owned (length p.plan.nodes) p.plan.nodes p.frames (children kind) none
    → Ensures (Kept limits p) (emit kind loc p)
unfolding emit push_node
emit-Good limits kind loc p r b loose = attach-Good limits kind loc p r b loose p.frames refl
