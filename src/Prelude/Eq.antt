-- ===== src/Prelude/Eq.antt =====
-- Types whose values are compared by `==`: handles, pairs of handles, labels.
use Prim.Native.Nat.{ℕ}
use Prim.Native.String.{String}
use mathlib.Core.Path.{◌≡◌}
use mathlib.Core.Logic.{◌↔◌}
use mathlib.Core.Bool.{Bool, true, false, ◌&&◌}
use mathlib.Core.Option.{Option, none, some, some-injective}
use mathlib.Core.Path.{ap, refl}
use native.Mathlib.Omega.{arith}
use text.Mathlib.Text.{◌==◌ as str_eq}
use text.Mathlib.TextEquality.{eq_iff}
use hla4_rs.Prelude.Tests.{◌==◌, ==_iff}

pub record Eq {ℓ} (K : Type ℓ) : Type ℓ where
  pub beq : K → K → Bool
  pub beq_iff : (j k : K) → (beq j k ≡ true) ↔ (j ≡ k)

abbrev pair_beq : ℕ × ℕ → ℕ × ℕ → Bool
pair_beq (a, b) (c, d) = a == c && b == d

pub pair_beq_iff : (p q : ℕ × ℕ) → (pair_beq p q ≡ true) ↔ (p ≡ q)
pair_beq_iff (a, b) (c, d) = ground arith

-- labels
instance abbrev pub string_eq : Eq String
string_eq = record { beq_iff = eq_iff; beq = str_eq }

-- pairs of a class and an attribute
instance abbrev pub pair_eq : Eq (ℕ × ℕ)
pair_eq = record { beq_iff = pair_beq_iff; beq = pair_beq }

abbrev nat_beq : ℕ → ℕ → Bool
nat_beq a b = a == b

-- handles
instance abbrev pub nat_eq : Eq ℕ
nat_eq = record { beq_iff = ==_iff; beq = nat_beq }

abbrev option_beq : Option ℕ → Option ℕ → Bool
option_beq none none = true
option_beq (some a) (some b) = a == b
option_beq _ _ = false

pub option_beq_iff : (p q : Option ℕ) → (option_beq p q ≡ true) ↔ (p ≡ q)
option_beq_iff none none = ((λ h. refl), (λ h. refl))
option_beq_iff none (some b) = ground arith
option_beq_iff (some a) none = ground arith
option_beq_iff (some a) (some b) = ground (arith, ==_iff a b)

-- owners
instance abbrev pub option_eq : Eq (Option ℕ)
option_eq = record { beq_iff = option_beq_iff; beq = option_beq }

abbrev key_beq : ℕ × String → ℕ × String → Bool
key_beq (a, b) (c, d) = a == c && str_eq b d

pub key_beq_iff : (p q : ℕ × String) → (key_beq p q ≡ true) ↔ (p ≡ q)
key_beq_iff (a, b) (c, d) = ground (arith, eq_iff b d, ==_iff a c)

-- pairs of a class and the name of an attribute or a parameter
instance abbrev pub key_eq : Eq (ℕ × String)
key_eq = record { beq_iff = key_beq_iff; beq = key_beq }

abbrev parent_beq : Option String → Option String → Bool
parent_beq none none = true
parent_beq (some a) (some b) = str_eq a b
parent_beq _ _ = false

pub parent_beq_iff : (p q : Option String) → (parent_beq p q ≡ true) ↔ (p ≡ q)
parent_beq_iff none none = ((λ h. refl), (λ h. refl))
parent_beq_iff none (some b) = ground arith
parent_beq_iff (some a) none = ground arith
parent_beq_iff (some a) (some b) =
    ((λ h. ap some ((eq_iff a b).0 h)), (λ h. (eq_iff a b).1 (some-injective a b h)))

-- parents of classes
instance abbrev pub parent_eq : Eq (Option String)
parent_eq = record { beq_iff = parent_beq_iff; beq = parent_beq }
