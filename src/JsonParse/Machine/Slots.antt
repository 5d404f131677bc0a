-- ===== src/JsonParse/Machine/Slots.antt =====
-- Strings and reservations keep what the machine keeps.
use mathlib.Core.Path.{subst}
use telora.Common.{
  ℕ, ◌+◌, ◌≤◌, ◌≡◌, refl, sym, ap, inl, inr, none, List, [], ◌∷◌, arith, ltb, Bool-cases, length,
  All, ok,
}
use telora.JsonParse.{
  container_size, container_len, exceeds, nodes, depth, Span, Quota, DataLimits, Frame, Parser,
  check_limit, container_slot, reserve_value,
}
use telora.JsonParse.Machine.Conditions.{Bounds, InRange, Waiting, Good, Ready}
use telora.JsonParse.Machine.Rules.{fail-Ensures, Ensures-map, Ensures, Ensures-bind}

pub check_limit-Ensures :
    (p : Parser) (span : Span) (quota : Quota) (amount top : ℕ)
    → InRange span
    → Ensures (λ (u : Unit {0}). amount ≤ top) (check_limit p span quota amount top)
unfolding check_limit
check_limit-Ensures p span quota amount top range = elim (Bool-cases (ltb top amount)) [
  | inl e ↦
      rw (e, check_limit)
        (fail-Ensures (λ (u : Unit {0}). amount ≤ top) p span (exceeds quota amount top) range)
  | inr e ↦ let le : amount ≤ top = ground arith in rw (e, check_limit) le
]

pub container_slot-Ensures :
    (p : Parser) (span : Span)
    → InRange span
    → Ensures (λ (u : Unit {0}). Unit {0}) (container_slot p span)
unfolding container_slot
container_slot-Ensures p span range = by_frames p.frames
  where
    by_frames :
        (fs : List Frame)
        → Ensures
            (λ (u : Unit {0}). Unit {0})
            (elim fs [
              | [] ↦ ok tt
              | f ∷ fs ↦
                  check_limit p span container_size
                    (container_len f.container + f.skipped + 1)
                    p.limits.container_size
            ])
    by_frames [] = tt
    by_frames (f ∷ fs) =
        let size : ℕ = container_len f.container + f.skipped + 1 in
        Ensures-map (λ (u : Unit {0}). size ≤ p.limits.container_size) (λ (u : Unit {0}). Unit {0})
          (check_limit p span container_size size p.limits.container_size) (λ u le. tt)
          (check_limit-Ensures p span container_size size p.limits.container_size range)

-- The slot is taken and within the limits.
abbrev pub Reserved : Parser → Parser → Type 0
Reserved p q =
    (q ≡ record p { nodes = p.nodes + 1 })
    × (p.nodes + 1 ≤ p.limits.nodes)
    × (length p.frames + 1 ≤ p.limits.depth)

pub reserve_value-Reserved :
    (p : Parser) (span : Span) → InRange span → Ensures (Reserved p) (reserve_value p span)
unfolding reserve_value
reserve_value-Reserved p span range =
    Ensures-bind (λ _. Unit {0}) _ (container_slot p span) _ (container_slot-Ensures p span range)
      λ _ _.
        Ensures-bind (λ _. length p.frames + 1 ≤ p.limits.depth) _
          (check_limit p span depth (length p.frames + 1) p.limits.depth) _
          (check_limit-Ensures p span depth (length p.frames + 1) p.limits.depth range)
          λ _ deep.
            Ensures-bind (λ _. p.nodes + 1 ≤ p.limits.nodes) _
              (check_limit p span nodes (p.nodes + 1) p.limits.nodes) _
              (check_limit-Ensures p span nodes (p.nodes + 1) p.limits.nodes range)
              λ _ few. (refl, few, deep)

-- A reserved slot, in a state without a root whose frames wait for a value.
pub Reserved-Ready :
    (limits : Bounds) (p q : Parser)
    → Good limits p
    → p.root ≡ none
    → All (Waiting (length p.plan.nodes)) p.frames
    → Reserved p q
    → Ready limits q
Reserved-Ready limits p q g unrooted waiting (e, few, deep) = subst (Ready limits) (sym e) (record {
  same_limits = g.same_limits;
  unrooted = unrooted;
  ordered = g.ordered;
  waiting = waiting;
  placed = g.placed;
  in_source = g.in_source;
  reported = omega (arith, g.reported);
  admitted = omega (arith, g.admitted);
  node_limit = omega (arith, few, ap (λ (l : DataLimits). l.nodes) g.same_limits);
  depth_limit = omega (arith, deep, ap (λ (l : DataLimits). l.depth) g.same_limits);
  payload_limit = g.payload_limit;
})
