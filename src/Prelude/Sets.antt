-- ===== src/Prelude/Sets.antt =====
-- `HashSet` as a list without repetitions, its order that of iteration.
use Prim.Native.Nat.{◌+◌}
use mathlib.Core.Path.{◌≡◌, refl}
use mathlib.Core.Bool.{Bool, true, false}
use mathlib.Core.List.{List, [], ◌∷◌}
use native.Mathlib.Omega.{arith}
use hla4_rs.Prelude.Tests.{if◌then◌else◌}
use hla4_rs.Prelude.Lists.{length}
use hla4_rs.Prelude.Eq.{Eq}

module _ {ℓ} {A : Type ℓ} ⦃e : Eq A⦄ where
  unfoldable pub contains : A → List A → Bool
  contains a [] = false
  contains a (x ∷ xs) = if e.beq x a then true else contains a xs

  unfoldable pub set_insert : A → List A → List A
  set_insert a [] = a ∷ []
  set_insert a (x ∷ xs) = if e.beq x a then x ∷ xs else x ∷ set_insert a xs

  unfoldable pub set_remove : A → List A → List A
  set_remove a [] = []
  set_remove a (x ∷ xs) = let rest = set_remove a xs in if e.beq x a then rest else x ∷ rest

  -- `set.extend(xs)`
  unfoldable pub set_extend : List A → List A → List A
  unfolding set_insert
  set_extend [] s = s
  set_extend (x ∷ xs) s = set_extend xs (set_insert x s)

  pub contains-set_insert :
      (a b : A) (s : List A)
      → contains b (set_insert a s) ≡ (if e.beq a b then true else contains b s)
  unfolding contains set_insert
  contains-set_insert a b [] = refl
  contains-set_insert a b (x ∷ s) =
      ground (arith, e.beq_iff a b, e.beq_iff x a, e.beq_iff x b, contains-set_insert a b s)

  pub contains-set_remove :
      (a b : A) (s : List A)
      → contains b (set_remove a s) ≡ (if e.beq a b then false else contains b s)
  unfolding contains set_remove
  contains-set_remove a b [] = ground arith
  contains-set_remove a b (x ∷ s) =
      ground (arith, e.beq_iff a b, e.beq_iff x a, e.beq_iff x b, contains-set_remove a b s)

  -- No element comes twice.
  abbrev pub Distinct : List A → Type 0
  Distinct [] = Unit
  Distinct (x ∷ xs) = (contains x xs ≡ false) × Distinct xs

  pub length-set_insert :
      (a : A) (s : List A)
      → length (set_insert a s) ≡ (if contains a s then length s else length s + 1)
  unfolding contains set_insert
  length-set_insert a [] = ground arith
  length-set_insert a (x ∷ s) = ground (arith, length-set_insert a s)

  pub Distinct-set_insert : (a : A) (s : List A) → Distinct s → Distinct (set_insert a s)
  unfolding contains set_insert
  Distinct-set_insert a [] d = (refl, tt)
  Distinct-set_insert a (x ∷ s) d =
      ground (
        arith,
        Distinct-set_insert a s d.1,
        contains-set_insert a x s,
        e.beq_iff a x,
        e.beq_iff x a,
      )
