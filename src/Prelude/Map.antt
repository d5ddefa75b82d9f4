-- ===== src/Prelude/Map.antt =====
-- `HashMap` as an association list. The order of the list stands for the order of iteration, which
-- the program does not fix: what is proved for every list holds for every order.
use mathlib.Core.Path.{◌≡◌, refl, sym, ap, ◌∙◌}
use mathlib.Core.Logic.{◌↔◌, ◌⊎◌, inl, inr}
use mathlib.Core.Bool.{Bool, true, false}
use mathlib.Core.Option.{Option, none, some, some-injective, none-ne-some}
use mathlib.Core.Option
use mathlib.Core.List.{List, [], ◌∷◌, map}
use native.Mathlib.Omega.{arith}
use hla4_rs.Prelude.Tests.{if◌then◌else◌, Bool-cases}
use hla4_rs.Prelude.Eq.{Eq}

abbrev pub Map {ℓ κ} : Type ℓ → Type κ → Type (ℓ ⊔ κ)
Map K V = List (K × V)

module _ {ℓ κ} {K : Type ℓ} {V : Type κ} ⦃e : Eq K⦄ where
  unfoldable pub get : K → Map K V → Option V
  get k [] = none
  get k ((j, v) ∷ m) = if e.beq j k then some v else get k m

  unfoldable pub insert : K → V → Map K V → Map K V
  insert k v [] = (k, v) ∷ []
  insert k v ((j, w) ∷ m) = if e.beq j k then (j, v) ∷ m else (j, w) ∷ insert k v m

  unfoldable pub remove : K → Map K V → Map K V
  remove k [] = []
  remove k ((j, w) ∷ m) = let rest = remove k m in if e.beq j k then rest else (j, w) ∷ rest

  -- `if let Some(v) = m.get_mut(&k) { *v = f(v) }`
  unfoldable pub modify : K → (V → V) → Map K V → Map K V
  modify k f [] = []
  modify k f ((j, w) ∷ m) = (j, (if e.beq j k then f w else w)) ∷ modify k f m

  unfoldable pub contains_key : K → Map K V → Bool
  contains_key k [] = false
  contains_key k ((j, v) ∷ m) = if e.beq j k then true else contains_key k m

  pub get-insert :
      (k j : K) (v : V) (m : Map K V)
      → get j (insert k v m) ≡ (if e.beq k j then some v else get j m)
  unfolding get insert
  get-insert k j v [] = refl
  get-insert k j v ((i, w) ∷ m) =
      ground (arith, e.beq_iff k j, e.beq_iff i k, e.beq_iff i j, get-insert k j v m)

  pub get-remove :
      (k j : K) (m : Map K V) → get j (remove k m) ≡ (if e.beq k j then none else get j m)
  unfolding get remove
  get-remove k j [] = ground arith
  get-remove k j ((i, w) ∷ m) =
      ground (arith, e.beq_iff k j, e.beq_iff i k, e.beq_iff i j, get-remove k j m)

  pub get-modify :
      (k j : K) (f : V → V) (m : Map K V)
      → get j (modify k f m) ≡ (if e.beq k j then Option.map f (get j m) else get j m)
  unfolding get modify
  get-modify k j f [] = ground arith
  get-modify k j f ((i, w) ∷ m) =
      ground (arith, e.beq_iff k j, e.beq_iff i k, e.beq_iff i j, get-modify k j f m)

  -- What is found after an insertion is what was inserted or was there before.
  pub get-insert_cases :
      (k j : K) (v w : V) (m : Map K V)
      → get j (insert k v m) ≡ some w
      → ((k ≡ j) × (v ≡ w)) ⊎ (get j m ≡ some w)
  get-insert_cases k j v w m h = elim (Bool-cases (e.beq k j)) [
    | inl y ↦ inl (
      (e.beq_iff k j).0 y,
      some-injective v w (sym (get-insert k j v m ∙ ap (λ b. if b then some v else get j m) y) ∙ h),
    )
    | inr y ↦ inr (sym (get-insert k j v m ∙ ap (λ b. if b then some v else get j m) y) ∙ h)
  ]

  pub get-insert_same : (k : K) (v : V) (m : Map K V) → get k (insert k v m) ≡ some v
  get-insert_same k v m =
      get-insert k k v m ∙ ap (λ b. if b then some v else get k m) ((e.beq_iff k k).1 refl)

  pub get-insert_new :
      (k j : K) (v w : V) (m : Map K V)
      → get k m ≡ none
      → get j m ≡ some w
      → get j (insert k v m) ≡ some w
  get-insert_new k j v w m new h = elim (Bool-cases (e.beq k j)) [
    | inl y ↦ absurd (none-ne-some w (sym new ∙ ap (λ x. get x m) ((e.beq_iff k j).0 y) ∙ h))
    | inr y ↦ get-insert k j v m ∙ ap (λ b. if b then some v else get j m) y ∙ h
  ]

  -- What is found after a write was there before, as it is or before the write.
  pub get-modify_cases :
      (k j : K) (f : V → V) (w : V) (m : Map K V)
      → get j (modify k f m) ≡ some w
      → (get j m ≡ some w) ⊎ ((v : V) × ((get j m ≡ some v) × (f v ≡ w)))
  unfolding get modify
  get-modify_cases k j f w [] h = inl h
  get-modify_cases k j f w ((i, v) ∷ m) h = elim (Bool-cases (e.beq i j)) [
    | inr y ↦ rw (y) (
        get-modify_cases k j f w m (
          sym (ap (λ b. if b then some (if e.beq i k then f v else v) else get j (modify k f m)) y)
          ∙ h))
    | inl y ↦
        let found : (if e.beq i k then f v else v) ≡ w =
          some-injective (if e.beq i k then f v else v) w (
            sym
              (ap (λ b. if b then some (if e.beq i k then f v else v) else get j (modify k f m)) y)
            ∙ h) in
        elim (Bool-cases (e.beq i k)) [
          | inl z ↦ rw (y) (inr (v, (refl, sym (ap (λ b. if b then f v else v) z) ∙ found)))
          | inr z ↦ rw (y) (inl (ap some (sym (ap (λ b. if b then f v else v) z) ∙ found)))
        ]
  ]

  -- The keys of a `HashMap` are distinct.
  abbrev pub KeysDistinct : Map K V → Type κ
  KeysDistinct [] = Unit {κ}
  KeysDistinct ((k, v) ∷ m) = (get k m ≡ none) × KeysDistinct m

  pub KeysDistinct-insert :
      (k : K) (v : V) (m : Map K V) → KeysDistinct m → KeysDistinct (insert k v m)
  unfolding get insert
  KeysDistinct-insert k v [] d = (refl, tt)
  KeysDistinct-insert k v ((j, w) ∷ m) d =
      ground
        (arith, KeysDistinct-insert k v m d.1, get-insert k j v m, e.beq_iff k j, e.beq_iff j k)

  pub KeysDistinct-remove : (k : K) (m : Map K V) → KeysDistinct m → KeysDistinct (remove k m)
  unfolding get remove
  KeysDistinct-remove k [] d = tt
  KeysDistinct-remove k ((j, w) ∷ m) d =
      ground (arith, KeysDistinct-remove k m d.1, get-remove k j m, e.beq_iff k j, e.beq_iff j k)

  pub contains_key-get : (k : K) (m : Map K V) → (contains_key k m ≡ false) ↔ (get k m ≡ none)
  unfolding get contains_key
  contains_key-get k [] = ((λ h. refl), (λ h. refl))
  contains_key-get k ((j, v) ∷ m) = ground (arith, contains_key-get k m)

module _ {ℓ κ} {K : Type ℓ} {V : Type κ} where
  abbrev pub keys : Map K V → List K
  keys m = map (λ p. p.0) m

  abbrev pub values : Map K V → List V
  values m = map (λ p. p.1) m

pub beq_self {ℓ} : {K : Type ℓ} ⦃e : Eq K⦄ (k : K) → e.beq k k ≡ true
beq_self ⦃e⦄ k = (e.beq_iff k k).1 refl
