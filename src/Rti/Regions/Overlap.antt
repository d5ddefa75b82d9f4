-- ===== src/Rti/Regions/Overlap.antt =====
-- crates/hla-rti/src/dispatch/ddm_matching.rs: regions overlap when they have a point in common.
use mathlib.Core.Path.{subst}
use mathlib.Core.List.{cons≢nil}
use mathlib.Core.Bool.{false≢true}
use hla4_rs.Prelude.{
  ℕ, ◌≡◌, ◌↔◌, ◌⊎◌, refl, sym, ap, ◌∙◌, List, [], ◌∷◌, true, some, ◌==◌, ==_iff, arith,
  Option-cases, Bool-cases, inl, inr,
}
use hla4_rs.Prelude.Eq.{nat_eq}
use hla4_rs.Prelude.Map.{Map, get, beq_self}
use hla4_rs.Prelude.Sets.{contains}
use hla4_rs.Rti.State.{Federation, Region}
use hla4_rs.Rti.Regions.Bounds.{ValidRegion, RegionsValid}
use hla4_rs.Rti.Regions.{pair_overlaps, overlaps_one, overlaps_pair, regions_overlap_any}
use hla4_rs.Rti.Regions.Points.{CommonPoint, intersect-CommonPoint}

-- A region of each of two sets, with a point of both.
pub record Overlap (regions : Map ℕ Region) (ps ss : List ℕ) : Type 0 where
  pub p : ℕ
  pub s : ℕ
  pub rp : Region
  pub rs : Region
  pub p_in : contains p ps ≡ true
  pub s_in : contains s ss ≡ true
  pub p_is : get p regions ≡ some rp
  pub s_is : get s regions ≡ some rs
  pub point : CommonPoint rp.committed rs.committed

module _ (regions : Map ℕ Region) where
  -- The pairs that the loops find.
  abbrev Found : List ℕ → List ℕ → Type 0
  Found ps ss =
      (p : ℕ) × ((s : ℕ) × ((contains p ps ≡ true)
          × ((contains s ss ≡ true) × (pair_overlaps (get p regions) (get s regions) ≡ true))))

  overlaps_one-Found :
      (p : ℕ) (ss : List ℕ)
      → (overlaps_one regions (get p regions) ss ≡ true) ↔ (
          (s : ℕ) × ((contains s ss ≡ true)
            × (pair_overlaps (get p regions) (get s regions) ≡ true)))
  unfolding overlaps_one contains
  overlaps_one-Found p [] = ((λ h. absurd (ground arith)), (λ h. absurd (ground arith)))
  overlaps_one-Found p (t ∷ ss) = (
    (λ h. elim (Bool-cases (pair_overlaps (get p regions) (get t regions))) [
      | inl y ↦ (t, (rw (beq_self t) refl, y))
      | inr y ↦
          let rest : (s : ℕ) × ((contains s ss ≡ true)
                × (pair_overlaps (get p regions) (get s regions) ≡ true)) =
            (overlaps_one-Found p ss).0 (ground arith) in
          (rest.0, (rw (rest.1.0) ground arith, rest.1.1))
    ]),
    (λ h. elim (Bool-cases (t == h.0)) [
      | inl y ↦
          rw (ap (λ x. pair_overlaps (get p regions) (get x regions)) ((==_iff t h.0).0 y), h.1.1)
            refl
      | inr y ↦ rw ((overlaps_one-Found p ss).1 (h.0, (ground arith, h.1.1))) ground arith
    ]),
  )

  overlaps_pair-Found : (ps ss : List ℕ) → (overlaps_pair regions ps ss ≡ true) ↔ Found ps ss
  unfolding overlaps_pair contains
  overlaps_pair-Found [] ss = ((λ h. absurd (ground arith)), (λ h. absurd (ground arith)))
  overlaps_pair-Found (q ∷ ps) ss = (
    (λ h. elim (Bool-cases (overlaps_one regions (get q regions) ss)) [
      | inl y ↦ (
        q,
        (
          ((overlaps_one-Found q ss).0 y).0,
          (rw (beq_self q) refl, ((overlaps_one-Found q ss).0 y).1),
        ),
      )
      | inr y ↦
          let rest : Found ps ss = (overlaps_pair-Found ps ss).0 (ground arith) in
          (rest.0, (rest.1.0, (rw (rest.1.1.0) ground arith, rest.1.1.1)))
    ]),
    (λ h. elim (Bool-cases (q == h.0)) [
      | inl y ↦
          rw
            ((overlaps_one-Found q ss).1
              (h.1.0, (h.1.1.1.0, rw (ap (λ x. get x regions) ((==_iff q h.0).0 y)) h.1.1.1.1)))
            refl
      | inr y ↦
          rw ((overlaps_pair-Found ps ss).1 (h.0, (h.1.0, (ground arith, h.1.1.1)))) ground arith
    ]),
  )

  Found-Overlap : RegionsValid regions → (ps ss : List ℕ) → Found ps ss → Overlap regions ps ss
  Found-Overlap v ps ss (p, (s, (p_in, (s_in, meet)))) = elim (Option-cases (get p regions)) [
    | inl e ↦ absurd (false≢true (sym (ap (λ x. pair_overlaps x (get s regions)) e) ∙ meet))
    | inr (rp, e) ↦ elim (Option-cases (get s regions)) [
      | inl g ↦ absurd (
          false≢true (
            sym (ap (λ x. pair_overlaps x (get s regions)) e ∙ ap (pair_overlaps (some rp)) g)
            ∙ meet))
      | inr (rs, g) ↦ record {
        p = p;
        s = s;
        rp = rp;
        rs = rs;
        p_in = p_in;
        s_in = s_in;
        p_is = e;
        s_is = g;
        point =
            (intersect-CommonPoint rp.committed rs.committed (subst ValidRegion e (v p)).0
                (subst ValidRegion g (v s)).0).0
              (sym (ap (λ x. pair_overlaps x (get s regions)) e ∙ ap (pair_overlaps (some rp)) g)
                ∙ meet);
      }
    ]
  ]

  Overlap-Found : RegionsValid regions → (ps ss : List ℕ) → Overlap regions ps ss → Found ps ss
  Overlap-Found v ps ss o = (
    o.p,
    (
      o.s,
      (
        o.p_in,
        (
          o.s_in,
          rw (o.p_is, o.s_is)
              ((intersect-CommonPoint o.rp.committed o.rs.committed
                  (subst ValidRegion o.p_is (v o.p)).0 (subst ValidRegion o.s_is (v o.s)).0).1
                o.point),
        ),
      ),
    ),
  )

module _ {T : Type 0} (federation : Federation T) where
  -- When the lower bound of every range of the federation's regions does not exceed the upper one,
  -- the regions of an update and of a subscription overlap exactly when one side names no region, or
  -- each side names a known region such that one point lies in the committed ranges of both.
  pub regions_overlap_any-Overlap :
      (ps ss : List ℕ)
      → RegionsValid federation.regions
      → (regions_overlap_any federation ps ss ≡ true)
        ↔ ((ps ≡ []) ⊎ ((ss ≡ []) ⊎ Overlap federation.regions ps ss))
  unfolding regions_overlap_any
  regions_overlap_any-Overlap [] ss v = ((λ h. inl refl), (λ h. refl))
  regions_overlap_any-Overlap (p ∷ ps) [] v = ((λ h. inr (inl refl)), (λ h. refl))
  regions_overlap_any-Overlap (p ∷ ps) (s ∷ ss) v = (
    (λ h. inr (
        inr (
          Found-Overlap federation.regions v (p ∷ ps) (s ∷ ss)
            ((overlaps_pair-Found federation.regions (p ∷ ps) (s ∷ ss)).0 h)))),
    (λ h. elim h [
      | inl e ↦ absurd (cons≢nil e)
      | inr (inl e) ↦ absurd (cons≢nil e)
      | inr (inr o) ↦
          (overlaps_pair-Found federation.regions (p ∷ ps) (s ∷ ss)).1
            (Overlap-Found federation.regions v (p ∷ ps) (s ∷ ss) o)
    ]),
  )
