-- ===== src/Prelude/Counting.antt =====
-- Sets compared by their sizes.
use Prim.Native.Nat.{suc, ◌≤◌}
use mathlib.Core.Path.{◌≡◌, refl}
use mathlib.Core.Logic.{inl, inr}
use mathlib.Core.Bool.{true, false}
use mathlib.Core.Option.{none}
use mathlib.Core.List.{List, [], ◌∷◌}
use native.Mathlib.Omega.{arith}
use hla4_rs.Prelude.Tests.{Bool-cases}
use hla4_rs.Prelude.Lists.{length}
use hla4_rs.Prelude.Eq.{Eq}
use hla4_rs.Prelude.Map.{Map, get, keys, KeysDistinct}
use hla4_rs.Prelude.Sets.{contains, set_remove, contains-set_remove, Distinct}

module _ {ℓ} {A : Type ℓ} ⦃e : Eq A⦄ where
  -- Every element of the first is one of the second.
  abbrev pub Among : List A → List A → Type ℓ
  Among s t = (x : A) → contains x s ≡ true → contains x t ≡ true

  set_remove_absent : (a : A) (s : List A) → contains a s ≡ false → set_remove a s ≡ s
  unfolding contains set_remove
  set_remove_absent a [] h = refl
  set_remove_absent a (x ∷ s) h = ground (arith, set_remove_absent a s)

  pub length-set_remove :
      (a : A) (s : List A)
      → Distinct s
      → contains a s ≡ true
      → suc (length (set_remove a s)) ≡ length s
  unfolding contains set_remove
  length-set_remove a [] d h = cc
  length-set_remove a (x ∷ s) d h =
      ground (arith, length-set_remove a s d.1, set_remove_absent a s, e.beq_iff x a, d.0)

  pub Distinct-set_remove : (a : A) (s : List A) → Distinct s → Distinct (set_remove a s)
  unfolding contains set_remove
  Distinct-set_remove a [] d = tt
  Distinct-set_remove a (x ∷ s) d =
      ground (arith, Distinct-set_remove a s d.1, contains-set_remove a x s)

  contains_head : (x : A) (s : List A) → contains x (x ∷ s) ≡ true
  unfolding contains
  contains_head x s = ground (arith, e.beq_iff x x)

  -- What lacks `x` is also among the rest.
  Among-but : (x : A) (s t : List A) → contains x s ≡ false → Among s t → Among s (set_remove x t)
  Among-but x s t absent h y hy = ground (arith, h y hy, contains-set_remove x y t, e.beq_iff x y)

  Among-rest :
      (x : A) (s t : List A) → contains x s ≡ false → Among (x ∷ s) t → Among s (set_remove x t)
  unfolding contains
  Among-rest x s t absent h = Among-but x s t absent (λ y hy. h y (ground arith))

  pub length-Among : (s t : List A) → Distinct s → Distinct t → Among s t → length s ≤ length t
  length-Among [] t ds dt h = omega arith
  length-Among (x ∷ s) t ds dt h =
      let bound =
        length-Among s (set_remove x t) ds.1 (Distinct-set_remove x t dt)
          (Among-rest x s t ds.0 h) in
      omega (arith, bound, length-set_remove x t dt (h x (contains_head x s)))

  -- A set within another of the same size is all of it.
  pub Among-of_length :
      (s t : List A) → Distinct s → Distinct t → Among s t → length t ≤ length s → Among t s
  Among-of_length s t ds dt h n x hx = elim (Bool-cases (contains x s)) [
    | inl found ↦ found
    | inr absent ↦
        let bound =
          length-Among s (set_remove x t) ds (Distinct-set_remove x t dt)
            (Among-but x s t absent h) in
        absurd (omega (arith, bound, length-set_remove x t dt hx))
  ]

module _ {ℓ} {K : Type ℓ} {V : Type 0} ⦃e : Eq K⦄ where
  pub contains-keys : (k : K) (m : Map K V) → get k m ≡ none → contains k (keys m) ≡ false
  unfolding get contains
  contains-keys k [] h = refl
  contains-keys k ((j, v) ∷ m) h = ground (arith, contains-keys k m)

  pub keys-Distinct : (m : Map K V) → KeysDistinct m → Distinct (keys m)
  keys-Distinct [] d = tt
  keys-Distinct ((j, v) ∷ m) d = (contains-keys j m d.0, keys-Distinct m d.1)
