-- ===== src/Roots/Lifo.antt =====
-- What stands under a frame of gc_roots.rs, and how one change of the stack affects it.
use mathlib.Core.Path.{subst}
use telora.Common.{
  ℕ, suc, ◌+◌, ◌≤◌, ◌<◌, ◌≡◌, sym, ap, ◌∙◌, ◌≢◌, ◌⊎◌, inl, inr, Option, List, [], ◌∷◌, ◌++◌, arith,
  length, set, take, All, take-set, take-take, take-append_short,
}
use telora.Roots.{
  Root, Frame, Handle, Roots, Grant, next_generation, pin, pin_generation, pin_slot, unpin,
}
use telora.Roots.Invariant.{IsValid, Stacked, Aged}

-- `f` stands on the stack with `fs` under it, and later frames above it.
abbrev pub Above : Frame → List Frame → List Frame → Type 0
Above f fs [] = ⊥
Above f fs (g ∷ gs) = (g ∷ gs ≡ f ∷ fs) ⊎ ((f.generation < g.generation) × Above f fs gs)

pub Above-base :
    (f : Frame) (fs gs : List Frame) (n : ℕ) → Stacked gs n → Above f fs gs → f.base + f.count ≤ n
Above-base f fs [] n st a = absurd a
Above-base f fs (g ∷ gs) n st (inl e) = ground arith
Above-base f fs (g ∷ gs) n st (inr a) = omega (arith, Above-base f fs gs g.base st.1 a.1)

pub Above-Aged :
    (f : Frame) (fs gs : List Frame) (b : ℕ) → Aged b gs → Above f fs gs → f.generation < b
Above-Aged f fs [] b ag a = absurd a
Above-Aged f fs (g ∷ gs) b ag (inl e) = ground arith
Above-Aged f fs (g ∷ gs) b ag (inr a) = omega arith

-- No frame of the stack has the generation of `f`, and no later one will.
pub record Dead (f : Frame) (r : Roots) : Type 0 where
  pub used : f.generation ≤ r.generation
  pub absent : All (λ g. g.generation ≢ f.generation) r.frames

pub record Standing (f : Frame) (fs : List Frame) (ss : List (Option Root)) (r : Roots)
    : Type 0 where
  pub above : Above f fs r.frames
  pub under : take f.base r.slots ≡ ss

-- While `f` stands what is under it is as it was; once gone it stays so.
abbrev pub Under : Frame → List Frame → List (Option Root) → Roots → Type 0
Under f fs ss r = Standing f fs ss r ⊎ Dead f r

pub Aged-absent :
    (b : ℕ) (g : ℕ) (gs : List Frame) → b ≤ g → Aged b gs → All (λ h. h.generation ≢ g) gs
Aged-absent b g [] le a = tt
Aged-absent b g (h ∷ gs) le a = (omega arith, Aged-absent h.generation g gs (omega arith) a.1)

-- What the pin operations do to the frames: nothing.
pub record KeepsFrames (r s : Roots) : Type 0 where
  pub later : r.generation ≤ s.generation
  pub same_frames : s.frames ≡ r.frames
  pub same_slots : s.slots ≡ r.slots

pub KeepsFrames-Under :
    (f : Frame) (fs : List Frame) (ss : List (Option Root)) (r s : Roots)
    → KeepsFrames r s
    → Under f fs ss r
    → Under f fs ss s
KeepsFrames-Under f fs ss r s k (inl u) = inl (record {
  above = subst (Above f fs) (sym k.same_frames) u.above;
  under = ap (take f.base) k.same_slots ∙ u.under;
})
KeepsFrames-Under f fs ss r s k (inr d) = inr (record {
  used = omega (arith, d.used, k.later);
  absent = subst (All (λ g. g.generation ≢ f.generation)) (sym k.same_frames) d.absent;
})

pin_slot-KeepsFrames :
    (grant : Grant) (root : Root) (g : ℕ) (free : List ℕ) (r : Roots)
    → KeepsFrames r (pin_slot grant root g free r).1
unfolding pin_slot
pin_slot-KeepsFrames grant root g (i ∷ free) r = ground arith
pin_slot-KeepsFrames grant root g [] r = ground arith

pub pin-KeepsFrames : (grant : Grant) (root : Root) (r : Roots) → KeepsFrames r (pin grant root r).1
unfolding pin pin_generation next_generation
pin-KeepsFrames grant root r = ground (
  arith,
  pin_slot-KeepsFrames grant root (r.generation + 1) r.free_pins
      (record r { generation = r.generation + 1 }),
)

pub unpin-KeepsFrames : (h : Handle) (r : Roots) → KeepsFrames r (unpin h r).1
unfolding unpin
unpin-KeepsFrames h r = ground arith

-- A new innermost frame over the slots `ys`.
abbrev pub pushed : Frame → List (Option Root) → Roots → Roots
pushed x ys r = record r {
  generation = r.generation + 1;
  slots = r.slots ++ ys;
  frames = x ∷ r.frames;
}

-- The innermost frame gone, with its slots.
abbrev pub popped : Frame → List Frame → Roots → Roots
popped g gs r = record r { slots = take g.base r.slots; frames = gs }

module _ (f : Frame) (fs : List Frame) (ss : List (Option Root)) (r : Roots) (v : IsValid r) where
  pub pushed-Under :
      (x : Frame) (ys : List (Option Root))
      → x.generation ≡ r.generation + 1
      → Under f fs ss r
      → Under f fs ss (pushed x ys r)
  pushed-Under x ys e (inl s) =
      let young = Above-Aged f fs r.frames (suc r.generation) v.aged s.above in
      let low = Above-base f fs r.frames (length r.slots) v.stacked s.above in
      inl (record {
        above = inr (omega arith, s.above);
        under = take-append_short f.base r.slots ys (omega arith) ∙ s.under;
      })
  pushed-Under x ys e (inr d) =
      inr (record { used = omega (arith, d.used); absent = (omega (arith, d.used), d.absent) })

  pub popped-Under :
      (g : Frame) (gs : List Frame)
      → r.frames ≡ g ∷ gs
      → Under f fs ss r
      → Under f fs ss (popped g gs r)
  popped-Under g gs e (inr d) = inr (record {
    used = d.used;
    absent = (subst (All (λ h. h.generation ≢ f.generation)) e d.absent).1;
  })
  popped-Under g gs e (inl s) = split (subst (Above f fs) e s.above)
    where
      aged : Aged (suc r.generation) (g ∷ gs)
      aged = subst (Aged (suc r.generation)) e v.aged

      stacked : Stacked (g ∷ gs) (length r.slots)
      stacked = subst (λ (l : List Frame). Stacked l (length r.slots)) e v.stacked

      split : Above f fs (g ∷ gs) → Under f fs ss (popped g gs r)
      split (inl top) =
          let same : g.generation ≡ f.generation = ground arith in
          inr (record {
            used = omega (arith, aged);
            absent = Aged-absent g.generation f.generation gs (omega arith) aged.1;
          })
      split (inr a) = inl (record {
        above = a.1;
        under =
            take-take f.base g.base r.slots (omega (arith, Above-base f fs gs g.base stacked.1 a.1))
            ∙ s.under;
      })

  pub written-Under :
      (g : Frame) (gs : List Frame) (slot : ℕ) (root : Option Root)
      → r.frames ≡ g ∷ gs
      → Under f fs ss r
      → Under f fs ss (record r { slots = set r.slots (g.base + slot) root })
  written-Under g gs slot root e (inr d) = inr (record { used = d.used; absent = d.absent })
  written-Under g gs slot root e (inl s) = inl (record {
    above = s.above;
    under =
        take-set f.base r.slots (g.base + slot) root (low (subst (Above f fs) e s.above)) ∙ s.under;
  })
    where
      stacked : Stacked (g ∷ gs) (length r.slots)
      stacked = subst (λ (l : List Frame). Stacked l (length r.slots)) e v.stacked

      low : Above f fs (g ∷ gs) → f.base ≤ g.base + slot
      low (inl top) = ground arith
      low (inr a) = omega (arith, Above-base f fs gs g.base stacked.1 a.1)
