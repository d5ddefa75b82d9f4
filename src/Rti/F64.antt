-- ===== src/Rti/F64.antt =====
-- The operations of `f64` that the crate hla-rti uses, and what it relies on. A time is ordered
-- when it is not the NaN, which is when it is at most itself.
use hla4_rs.Prelude.{ℕ, ◌≡◌, List, Bool, true, false}

pub record F64 : Type 1 where
  pub T : Type 0
  pub zero : T
  pub infinity : T
  pub add : T → T → T
  pub min : T → T → T
  pub le : T → T → Bool
  pub lt : T → T → Bool
  pub eq : T → T → Bool
  pub is_finite : T → Bool
  pub to_be_bytes : T → List ℕ
  pub from_be_bytes : List ℕ → T

-- The laws of IEEE 754 that the proofs use.
pub record IsIeee (f : F64) : Type 0 where
  pub eq_self : (a : f.T) → f.le a a ≡ true → f.eq a a ≡ true
  pub le_trans : (a b c : f.T) → f.le a b ≡ true → f.le b c ≡ true → f.le a c ≡ true
  pub le_ordered : (a b : f.T) → f.le a b ≡ true → (f.le a a ≡ true) × (f.le b b ≡ true)
  pub le_of_not_lt :
      (a b : f.T) → f.le a a ≡ true → f.le b b ≡ true → f.lt a b ≡ false → f.le b a ≡ true
  pub lt_ordered : (a b : f.T) → f.lt a b ≡ true → (f.le a a ≡ true) × (f.le b b ≡ true)
  pub le_total :
      (a b : f.T) → f.le a a ≡ true → f.le b b ≡ true → f.le a b ≡ false → f.le b a ≡ true
  pub min_left : (a b : f.T) → f.le a a ≡ true → f.le (f.min a b) a ≡ true
  pub min_right : (a b : f.T) → f.le b b ≡ true → f.le (f.min a b) b ≡ true
  -- of two ordered times the minimum is one
  pub le_min : (a b c : f.T) → f.le c a ≡ true → f.le c b ≡ true → f.le c (f.min a b) ≡ true
  pub le_add :
      (a b c : f.T) → f.is_finite c ≡ true → f.le a b ≡ true → f.le (f.add a c) (f.add b c) ≡ true
  pub finite_ordered : (a : f.T) → f.is_finite a ≡ true → f.le a a ≡ true
