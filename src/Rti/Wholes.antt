-- ===== src/Rti/Wholes.antt =====
-- Whole numbers and an infinity in place of the floating-point numbers, for the examples.
use Prim.Native.Nat.{min}
use hla4_rs.Prelude.{
  ℕ, zero, ◌+◌, ◌≡◌, refl, List, [], ◌∷◌, Bool, true, false, Option, none, some, ltb, leb, ◌==◌,
  arith,
}
use hla4_rs.Rti.F64.{F64, IsIeee}

abbrev pub Whole : Type 0
Whole = Option ℕ

abbrev pub whole_add : Whole → Whole → Whole
whole_add (some a) (some b) = some (a + b)
whole_add (some a) none = none
whole_add none b = none

abbrev pub whole_min : Whole → Whole → Whole
whole_min (some a) (some b) = some (min a b)
whole_min (some a) none = some a
whole_min none b = b

abbrev pub whole_le : Whole → Whole → Bool
whole_le a none = true
whole_le none (some b) = false
whole_le (some a) (some b) = leb a b

abbrev pub whole_lt : Whole → Whole → Bool
whole_lt none b = false
whole_lt (some a) none = true
whole_lt (some a) (some b) = ltb a b

abbrev pub whole_eq : Whole → Whole → Bool
whole_eq none none = true
whole_eq none (some b) = false
whole_eq (some a) none = false
whole_eq (some a) (some b) = a == b

abbrev pub whole_is_finite : Whole → Bool
whole_is_finite none = false
whole_is_finite (some a) = true

abbrev pub whole_to : Whole → List ℕ
whole_to none = 127 ∷ 0 ∷ 0 ∷ 0 ∷ 0 ∷ 0 ∷ 0 ∷ 0 ∷ []
whole_to (some a) = 0 ∷ 0 ∷ 0 ∷ 0 ∷ 0 ∷ 0 ∷ 0 ∷ a ∷ []

abbrev pub whole_from : List ℕ → Whole
whole_from (zero ∷ _ ∷ _ ∷ _ ∷ _ ∷ _ ∷ _ ∷ a ∷ _) = some a
whole_from _ = none

abbrev pub wholes : F64
wholes = record {
  T = Whole;
  zero = some 0;
  infinity = none;
  add = whole_add;
  min = whole_min;
  le = whole_le;
  lt = whole_lt;
  eq = whole_eq;
  is_finite = whole_is_finite;
  to_be_bytes = whole_to;
  from_be_bytes = whole_from;
}

eq_self : (a : Whole) → whole_le a a ≡ true → whole_eq a a ≡ true
eq_self none h = refl
eq_self (some a) h = ground arith

le_trans : (a b c : Whole) → whole_le a b ≡ true → whole_le b c ≡ true → whole_le a c ≡ true
le_trans a b c h k = ground arith

lt_ordered : (a b : Whole) → whole_lt a b ≡ true → (whole_le a a ≡ true) × (whole_le b b ≡ true)
lt_ordered a b h = ground arith

pub wholes-IsIeee : IsIeee wholes
wholes-IsIeee = record {
  eq_self = eq_self;
  le_trans = le_trans;
  le_ordered = λ a b h. ground arith;
  le_of_not_lt = λ a b ha hb h. ground arith;
  lt_ordered = lt_ordered;
  le_total = λ a b ha hb h. ground arith;
  min_left = λ a b h. ground arith;
  min_right = λ a b h. ground arith;
  le_min = λ a b c h k. ground arith;
  le_add = λ a b c h k. ground arith;
  finite_ordered = λ a h. ground arith;
}
