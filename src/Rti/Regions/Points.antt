-- ===== src/Rti/Regions/Points.antt =====
-- crates/hla-rti/src/dispatch/ddm_matching.rs: two regions intersect when they have a point in common.
use mathlib.Core.Path.{subst}
use hla4_rs.Prelude.{
  ℕ, ◌≡◌, ◌≤◌, ◌↔◌, refl, sym, ap, leb, List, [], ◌∷◌, Bool, true, false, ◌&&◌, Option, none, some,
  ◌==◌, ==_iff, if◌then◌else◌, arith, Bool-cases, inl, inr,
}
use hla4_rs.Prelude.Eq.{nat_eq}
use hla4_rs.Prelude.Map.{Map, get, contains_key, beq_self}
use hla4_rs.Prelude.Sets.{contains}
use hla4_rs.Rti.Regions.Bounds.{ValidRange, IsValid}
use hla4_rs.Rti.Regions.{ranges_meet, shared, all_intersect}

-- A coordinate in a range; without a range every coordinate is.
abbrev pub InRange : ℕ → Option (ℕ × ℕ) → Type 0
InRange x none = Unit
InRange x (some (lower, upper)) = (lower ≤ x) × (x ≤ upper)

-- A point has a coordinate in each dimension.
abbrev pub IsIn : (ℕ → ℕ) → Map ℕ (ℕ × ℕ) → Type 0
IsIn point ranges = (d : ℕ) → InRange (point d) (get d ranges)

abbrev lowest : Option (ℕ × ℕ) → ℕ
lowest none = 0
lowest (some (lower, upper)) = lower

abbrev higher : ℕ → ℕ → ℕ
higher a b = if leb a b then b else a

abbrev is_some : Option (ℕ × ℕ) → Bool
is_some none = false
is_some (some r) = true

-- What the ranges of one dimension need: where both regions have one, they meet.
abbrev Meets : Option (ℕ × ℕ) → Option (ℕ × ℕ) → Type 0
Meets o q = is_some o && is_some q ≡ true → ranges_meet o q ≡ true

Meets-point :
    (o q : Option (ℕ × ℕ))
    → ValidRange o
    → ValidRange q
    → Meets o q
    → InRange (higher (lowest o) (lowest q)) o × InRange (higher (lowest o) (lowest q)) q
Meets-point none none v w m = (tt, tt)
Meets-point none (some (l, u)) v w m = (tt, (ground arith, ground arith))
Meets-point (some (l, u)) none v w m = ((ground arith, ground arith), tt)
Meets-point (some (l, u)) (some (l', u')) v w m =
    let h : ranges_meet (some (l, u)) (some (l', u')) ≡ true = m refl in
    ((ground arith, ground arith), (ground arith, ground arith))

point-Meets : (x : ℕ) (o q : Option (ℕ × ℕ)) → InRange x o → InRange x q → Meets o q
point-Meets x none none a b m = m
point-Meets x none (some (l, u)) a b m = m
point-Meets x (some (l, u)) none a b m = m
point-Meets x (some (l, u)) (some (l', u')) (a, a') (b, b') m = ground arith

contains_key-is_some : (d : ℕ) (rs : Map ℕ (ℕ × ℕ)) → contains_key d rs ≡ is_some (get d rs)
unfolding contains_key get
contains_key-is_some d [] = refl
contains_key-is_some d ((j, b) ∷ rs) = elim (Bool-cases (j == d)) [
  | inl y ↦ rw (y) refl
  | inr y ↦ rw (y) (contains_key-is_some d rs)
]

contains-shared :
    (d : ℕ) (rp rs : Map ℕ (ℕ × ℕ))
    → contains d (shared rp rs) ≡ contains_key d rp && contains_key d rs
unfolding contains shared contains_key
contains-shared d [] rs = refl
contains-shared d ((j, b) ∷ rp) rs = elim (Bool-cases (contains_key j rs)) [
  | inl k ↦ elim (Bool-cases (j == d)) [
    | inl y ↦ rw (k, y, ap (λ x. contains_key x rs) (sym ((==_iff j d).0 y)), k) refl
    | inr y ↦ rw (k, y) (contains-shared d rp rs)
  ]
  | inr k ↦ elim (Bool-cases (j == d)) [
    | inl y ↦
        rw (k, y, contains-shared d rp rs, ap (λ x. contains_key x rs) (sym ((==_iff j d).0 y)), k)
          ground arith
    | inr y ↦ rw (k, y) (contains-shared d rp rs)
  ]
]

all_intersect-contains :
    (ds : List ℕ) (rp rs : Map ℕ (ℕ × ℕ))
    → all_intersect ds rp rs ≡ true
    → (d : ℕ) → contains d ds ≡ true
    → ranges_meet (get d rp) (get d rs) ≡ true
unfolding all_intersect contains
all_intersect-contains [] rp rs h d c = absurd (ground arith)
all_intersect-contains (e ∷ ds) rp rs h d c = elim (Bool-cases (e == d)) [
  | inl y ↦ subst (λ x. ranges_meet (get x rp) (get x rs) ≡ true) ((==_iff e d).0 y) (ground arith)
  | inr y ↦ all_intersect-contains ds rp rs (ground arith) d (ground arith)
]

contains-all_intersect :
    (ds : List ℕ) (rp rs : Map ℕ (ℕ × ℕ))
    → ((d : ℕ) → contains d ds ≡ true → ranges_meet (get d rp) (get d rs) ≡ true)
    → all_intersect ds rp rs ≡ true
unfolding all_intersect contains
contains-all_intersect [] rp rs h = refl
contains-all_intersect (e ∷ ds) rp rs h =
    rw (h e (rw (beq_self e) refl))
      (contains-all_intersect ds rp rs (λ d c. h d (rw (c) ground arith)))

-- Two regions, as maps from dimensions to ranges.
module _ (rp rs : Map ℕ (ℕ × ℕ)) where
  intersect-Meets :
      (all_intersect (shared rp rs) rp rs ≡ true) ↔ ((d : ℕ) → Meets (get d rp) (get d rs))
  intersect-Meets = (
    (λ h d m.
        all_intersect-contains (shared rp rs) rp rs h d
          (rw (contains-shared d rp rs, contains_key-is_some d rp, contains_key-is_some d rs) m)),
    (λ h. contains-all_intersect (shared rp rs) rp rs (λ d c. h d (
        rw
          (
            sym (contains_key-is_some d rp),
            sym (contains_key-is_some d rs),
            sym (contains-shared d rp rs),
          )
          c))),
  )

  -- A point of both.
  abbrev pub CommonPoint : Type 0
  CommonPoint = (point : ℕ → ℕ) × (IsIn point rp × IsIn point rs)

  pub intersect-CommonPoint :
      IsValid rp → IsValid rs → (all_intersect (shared rp rs) rp rs ≡ true) ↔ CommonPoint
  intersect-CommonPoint v w = (
    (λ h. (
      (λ d. higher (lowest (get d rp)) (lowest (get d rs))),
      (
        (λ d. (Meets-point (get d rp) (get d rs) (v d) (w d) (intersect-Meets.0 h d)).0),
        (λ d. (Meets-point (get d rp) (get d rs) (v d) (w d) (intersect-Meets.0 h d)).1),
      ),
    )),
    (λ p. intersect-Meets.1 (λ d. point-Meets (p.0 d) (get d rp) (get d rs) (p.1.0 d) (p.1.1 d))),
  )
