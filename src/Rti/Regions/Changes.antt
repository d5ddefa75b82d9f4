-- ===== src/Rti/Regions/Changes.antt =====
-- crates/hla-rti/src/dispatch/ddm_lifecycle.rs: how a write may change a region.
use mathlib.Core.Path.{subst}
use mathlib.Core.Option.{some-injective}
use hla4_rs.Prelude.{
  ℕ, ◌≡◌, ◌≤◌, refl, sym, ap, ◌∙◌, List, [], ◌∷◌, Option, none, some, ◌==◌, ==_iff, if◌then◌else◌,
  Option-cases, Bool-cases, inl, inr,
}
use hla4_rs.Prelude.Eq.{nat_eq}
use hla4_rs.Prelude.Map.{Map, get, insert, remove, get-insert, get-remove}
use hla4_rs.Rti.State.{Region}
use hla4_rs.Rti.Regions.Bounds.{IsValid}
use hla4_rs.Rti.Regions.{commit_each}

-- How one call may change one region: not at all, or a new region of the caller with the same
-- committed and staged ranges, or, by its owner, a commit of the staged ranges, a change of the
-- staged ranges, or the region's end.
pub data RegionStep (caller : Option ℕ) : Option Region → Option Region → Type 0 where
  same : (r : Option Region) → RegionStep caller r r
  created :
      (r : Region)
      → caller ≡ some r.owner
      → r.committed ≡ r.staged
      → IsValid r.committed
      → RegionStep caller none (some r)
  committed :
      (r : Region)
      → caller ≡ some r.owner
      → RegionStep caller (some r) (some (record r { committed = r.staged }))
  bounded :
      (r : Region) (d : ℕ) (lower upper : ℕ)
      → caller ≡ some r.owner
      → lower ≤ upper
      → RegionStep caller (some r) (some (record r { staged = insert d (lower, upper) r.staged }))
  deleted : (r : Region) → caller ≡ some r.owner → RegionStep caller (some r) none

-- What the loop of a commit does to one region.
data CommitStep (fh : ℕ) (before after : Option Region) : Type 0 where
  idle : after ≡ before → CommitStep fh before after
  written :
      (r : Region)
      → before ≡ some r
      → r.owner ≡ fh
      → after ≡ some (record r { committed = r.staged })
      → CommitStep fh before after

-- A commit after a commit is one commit.
commit_twice :
    {fh : ℕ} {after : Option Region} (r : Region)
    → r.owner ≡ fh
    → CommitStep fh (some (record r { committed = r.staged })) after
    → CommitStep fh (some r) after
commit_twice r o (idle e) = written r refl o e
commit_twice r o (written q b p e) =
    let r' : Region = record r { committed = r.staged } in
    written r refl o (
      e
      ∙ ap {A = Region} (λ x. some (record x { committed = x.staged }))
          (sym (some-injective r' q b)))

commit_each-CommitStep :
    (fh : ℕ) (rhs : List ℕ) (regions : Map ℕ Region) (i : ℕ)
    → CommitStep fh (get i regions) (get i (commit_each fh rhs regions).0)
unfolding commit_each
commit_each-CommitStep fh [] regions i = idle refl
commit_each-CommitStep fh (rh ∷ rhs) regions i = elim (Option-cases (get rh regions)) [
  | inl e ↦ rw (commit_each, e) (commit_each-CommitStep fh rhs regions i)
  | inr (r, e) ↦ elim (Bool-cases (r.owner == fh)) [
    | inr y ↦ rw (commit_each, e, y) (idle refl)
    | inl y ↦
        let r' : Region = record r { committed = r.staged } in
        let rest : CommitStep fh (get i (insert rh r' regions))
            (get i (commit_each fh rhs (insert rh r' regions)).0) =
          commit_each-CommitStep fh rhs (insert rh r' regions) i in
        elim (Bool-cases (rh == i)) [
          | inl z ↦
              rw (commit_each, e, y, ap (λ x. get x regions) (sym ((==_iff rh i).0 z)), e)
                (commit_twice r ((==_iff r.owner fh).0 y) (
                  subst (λ x. CommitStep fh x (get i (commit_each fh rhs (insert rh r' regions)).0))
                    (get-insert rh i r' regions ∙ ap (λ b. if b then some r' else get i regions) z)
                    rest))
          | inr z ↦
              rw (commit_each, e, y)
                (subst (λ x. CommitStep fh x (get i (commit_each fh rhs (insert rh r' regions)).0))
                  (get-insert rh i r' regions ∙ ap (λ b. if b then some r' else get i regions) z)
                  rest)
        ]
  ]
]

pub commit_each-RegionStep :
    (fh : ℕ) (rhs : List ℕ) (regions : Map ℕ Region) (i : ℕ)
    → RegionStep (some fh) (get i regions) (get i (commit_each fh rhs regions).0)
commit_each-RegionStep fh rhs regions i = elim (commit_each-CommitStep fh rhs regions i) [
  | idle e ↦ rw (e) (same (get i regions))
  | written r b o e ↦ rw (e, b) (committed r (ap some (sym o)))
]

-- A write of one region is a step everywhere when it is one there.
pub insert-RegionStep :
    (caller : Option ℕ) (rh : ℕ) (r : Region) (regions : Map ℕ Region)
    → RegionStep caller (get rh regions) (some r)
    → (i : ℕ) → RegionStep caller (get i regions) (get i (insert rh r regions))
insert-RegionStep caller rh r regions step i = elim (Bool-cases (rh == i)) [
  | inl z ↦
      rw (get-insert rh i r regions, z, ap (λ x. get x regions) (sym ((==_iff rh i).0 z))) step
  | inr z ↦ rw (get-insert rh i r regions, z) (same (get i regions))
]

pub remove-RegionStep :
    (caller : Option ℕ) (rh : ℕ) (regions : Map ℕ Region)
    → RegionStep caller (get rh regions) none
    → (i : ℕ) → RegionStep caller (get i regions) (get i (remove rh regions))
remove-RegionStep caller rh regions step i = elim (Bool-cases (rh == i)) [
  | inl z ↦ rw (get-remove rh i regions, z, ap (λ x. get x regions) (sym ((==_iff rh i).0 z))) step
  | inr z ↦ rw (get-remove rh i regions, z) (same (get i regions))
]
