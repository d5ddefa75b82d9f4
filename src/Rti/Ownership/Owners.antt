-- ===== src/Rti/Ownership/Owners.antt =====
-- crates/hla-rti/src/dispatch/ownership.rs: what the loops over the attributes leave.
use hla4_rs.Prelude.{
  ℕ, ◌≡◌, refl, sym, ap, ◌∙◌, List, [], ◌∷◌, Bool, true, false, Option, none, some, ◌==◌, ==_iff,
  if◌then◌else◌, arith, Option-cases, Bool-cases, inl, inr,
}
use hla4_rs.Prelude.Eq.{nat_eq}
use hla4_rs.Prelude.Map.{Map, get, insert, remove, get-insert, get-remove}
use hla4_rs.Prelude.Sets.{contains}
use hla4_rs.Rti.Ownership.{owns, secure, divest}

-- The owner of an attribute after the loops, from its owner before.
abbrev pub secured_owner : ℕ → Bool → Option ℕ → Option ℕ
secured_owner fh asked (some o) = some o
secured_owner fh asked none = if asked then some fh else none

abbrev pub divested_owner : ℕ → Bool → Option ℕ → Option ℕ
divested_owner fh asked none = none
divested_owner fh asked (some o) = if asked then (if o == fh then none else some o) else some o

pub get-secure :
    (fh : ℕ) (attrs : List ℕ) (owners : Map ℕ ℕ) (a : ℕ)
    → get a (secure fh attrs owners).owners ≡ secured_owner fh (contains a attrs) (get a owners)
unfolding secure contains
get-secure fh [] owners a = elim (Option-cases (get a owners)) [
  | inl e ↦ rw (e) refl
  | inr (o, e) ↦ rw (e) refl
]
get-secure fh (b ∷ attrs) owners a = elim (Option-cases (get b owners)) [
  | inr (o, e) ↦
      rw (secure, e, get-secure fh attrs owners a)
        elim (Option-cases (get a owners)) [
          | inl x ↦ ground (arith, ==_iff b a)
          | inr (p, x) ↦ rw (x) refl
        ]
  | inl e ↦
      rw (secure, e, get-secure fh attrs (insert b fh owners) a, get-insert b a fh owners)
        elim (Option-cases (get a owners)) [
          | inl x ↦ ground (arith, ==_iff b a)
          | inr (p, x) ↦ ground (arith, ==_iff b a)
        ]
]

divested_owner-owned : (fh : ℕ) (o : Option ℕ) → owns fh o ≡ true → divested_owner fh true o ≡ none
divested_owner-owned fh none h = refl
divested_owner-owned fh (some o) h = rw (h) refl

divested_owner-kept :
    (fh : ℕ) (asked : Bool) (o : Option ℕ)
    → owns fh o ≡ false
    → divested_owner fh asked o ≡ divested_owner fh true o
divested_owner-kept fh asked none h = refl
divested_owner-kept fh asked (some o) h = ground arith

pub get-divest :
    (fh : ℕ) (attrs : List ℕ) (owners : Map ℕ ℕ) (a : ℕ)
    → get a (divest fh attrs owners).owners ≡ divested_owner fh (contains a attrs) (get a owners)
unfolding divest contains
get-divest fh [] owners a = elim (Option-cases (get a owners)) [
  | inl e ↦ rw (e) refl
  | inr (o, e) ↦ rw (e) refl
]
get-divest fh (b ∷ attrs) owners a = elim (Bool-cases (owns fh (get b owners))) [
  | inl e ↦
      rw (divest, e, get-divest fh attrs (remove b owners) a, get-remove b a owners)
        elim (Bool-cases (b == a)) [
          | inl y ↦
              rw
                (
                  y,
                  divested_owner-owned fh (get a owners)
                      (ap (λ x. owns fh (get x owners)) (sym ((==_iff b a).0 y)) ∙ e),
                )
                refl
          | inr y ↦ rw (y) refl
        ]
  | inr e ↦
      rw (divest, e, get-divest fh attrs owners a)
        elim (Bool-cases (b == a)) [
          | inl y ↦ rw (y) (
              divested_owner-kept fh (contains a attrs) (get a owners)
                (ap (λ x. owns fh (get x owners)) (sym ((==_iff b a).0 y)) ∙ e))
          | inr y ↦ rw (y) refl
        ]
]
