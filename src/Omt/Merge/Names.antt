-- ===== src/Omt/Merge/Names.antt =====
-- crates/hla-omt/src/merge.rs: a class's handle leads back to its name.
use Prim.Native.String.{String}
use mathlib.Core.Path.{subst}
use mathlib.Core.Option.{none-ne-some}
use hla4_rs.Prelude.{
  ℕ, ◌+◌, ◌^◌, ◌<◌, ◌≡◌, refl, sym, List, [], ◌∷◌, some, Result, ok, err, Result-cases,
  ok-injective, >>=-eq-ok, ◌>>=◌, Option-cases, Bool-cases, inl, inr, length,
}
use hla4_rs.Prelude.Eq.{nat_eq, string_eq, parent_eq}
use hla4_rs.Prelude.Map.{get}
use hla4_rs.Omt.Fom.{
  ObjectClassDef, InteractionClassDef, FomModule, MergedFom, object_class_handle, object_class_def,
  interaction_class_handle, interaction_class_def,
}
use hla4_rs.Omt.Merge.{
  FomError, Merged, merge_object_class, merge_interaction_class, merge_each, merge_all,
  merge_attributes, merge_parameters, assign_all, merge_modules, fom_of, nothing_merged,
  attribute_names, parameter_names, or_semantics,
}
use hla4_rs.Omt.Merge.Walk.{NamedDefs, insert-NamedDefs, Good, Fits, Good-bounded, assign_all-Good}

-- The union keeps every definition under its name.
module _ {C D : Type 0} (name : D → String)
    (merge : C → Merged D → Result FomError (Merged D)) where
  merge_each-NamedDefs :
      ((c : C) (merged after : Merged D)
        → NamedDefs name merged.defs
        → merge c merged ≡ ok after
        → NamedDefs name after.defs)
      → (classes : List C) (merged after : Merged D) → NamedDefs name merged.defs
      → merge_each merge classes merged ≡ ok after
      → NamedDefs name after.defs
  unfolding merge_each
  merge_each-NamedDefs keeps [] merged after n h =
      subst (λ m. NamedDefs name m.defs) (ok-injective merged after h) n
  merge_each-NamedDefs keeps (c ∷ classes) merged after n h =
      let bound = >>=-eq-ok (merge c merged) (λ m. merge_each merge classes m) h in
      merge_each-NamedDefs keeps classes bound.0 after (keeps c merged bound.0 n bound.1) bound.2

-- What holds of a result that is not an error.
abbrev Holds : {A : Type 0} → (A → Type 0) → Result FomError A → Type 0
Holds P (ok a) = P a
Holds P (err e) = Unit

Holds-ok :
    {A : Type 0} (P : A → Type 0) (r : Result FomError A) (a : A) → Holds P r → r ≡ ok a → P a
Holds-ok P r a h e = subst (Holds P) e h

merge_object_class-Holds :
    (cls : ObjectClassDef) (merged : Merged ObjectClassDef)
    → NamedDefs (λ d. d.name) merged.defs
    → Holds (λ m. NamedDefs (λ d. d.name) m.defs) (merge_object_class cls merged)
unfolding merge_object_class
merge_object_class-Holds cls merged n = elim (Option-cases (get cls.name merged.defs)) [
  | inl e ↦
      rw (merge_object_class, e) (insert-NamedDefs (λ d. d.name) cls.name cls merged.defs refl n)
  | inr (existing, e) ↦ elim (Bool-cases (parent_eq.beq existing.parent cls.parent)) [
    | inr y ↦ rw (merge_object_class, e, y) tt
    | inl y ↦ elim (Result-cases (merge_attributes cls.attributes existing.attributes)) [
      | inr (x', x) ↦ rw (merge_object_class, e, y, x) tt
      | inl (attributes, x) ↦
          rw (merge_object_class, e, y, x)
            (insert-NamedDefs (λ d. d.name) cls.name
              (record existing {
                attributes = attributes;
                semantics = or_semantics existing.semantics cls.semantics;
              })
              merged.defs (n cls.name existing e) n)
    ]
  ]
]

merge_object_class-NamedDefs :
    (cls : ObjectClassDef) (merged after : Merged ObjectClassDef)
    → NamedDefs (λ d. d.name) merged.defs
    → merge_object_class cls merged ≡ ok after
    → NamedDefs (λ d. d.name) after.defs
merge_object_class-NamedDefs cls merged after n h =
    Holds-ok (λ m. NamedDefs (λ d. d.name) m.defs) (merge_object_class cls merged) after
      (merge_object_class-Holds cls merged n) h

merge_interaction_class-Holds :
    (ic : InteractionClassDef) (merged : Merged InteractionClassDef)
    → NamedDefs (λ d. d.name) merged.defs
    → Holds (λ m. NamedDefs (λ d. d.name) m.defs) (merge_interaction_class ic merged)
unfolding merge_interaction_class
merge_interaction_class-Holds ic merged n = elim (Option-cases (get ic.name merged.defs)) [
  | inl e ↦
      rw (merge_interaction_class, e) (insert-NamedDefs (λ d. d.name) ic.name ic merged.defs refl n)
  | inr (existing, e) ↦ elim (Bool-cases (parent_eq.beq existing.parent ic.parent)) [
    | inr y ↦ rw (merge_interaction_class, e, y) tt
    | inl y ↦ elim (Result-cases (merge_parameters ic.parameters existing.parameters)) [
      | inr (x', x) ↦ rw (merge_interaction_class, e, y, x) tt
      | inl (parameters, x) ↦
          rw (merge_interaction_class, e, y, x)
            (insert-NamedDefs (λ d. d.name) ic.name
              (record existing {
                parameters = parameters;
                semantics = or_semantics existing.semantics ic.semantics;
              })
              merged.defs (n ic.name existing e) n)
    ]
  ]
]

merge_interaction_class-NamedDefs :
    (ic : InteractionClassDef) (merged after : Merged InteractionClassDef)
    → NamedDefs (λ d. d.name) merged.defs
    → merge_interaction_class ic merged ≡ ok after
    → NamedDefs (λ d. d.name) after.defs
merge_interaction_class-NamedDefs ic merged after n h =
    Holds-ok (λ m. NamedDefs (λ d. d.name) m.defs) (merge_interaction_class ic merged) after
      (merge_interaction_class-Holds ic merged n) h

merge_all-NamedDefs :
    (modules : List FomModule) (objects : Merged ObjectClassDef)
    (interactions : Merged InteractionClassDef)
    (after : Merged ObjectClassDef × Merged InteractionClassDef)
    → NamedDefs (λ d. d.name) objects.defs
    → NamedDefs (λ d. d.name) interactions.defs
    → merge_all modules objects interactions ≡ ok after
    → NamedDefs (λ d. d.name) after.0.defs × NamedDefs (λ d. d.name) after.1.defs
unfolding merge_all
merge_all-NamedDefs [] objects interactions after n i h = (
  subst (λ m. NamedDefs (λ d. d.name) m.0.defs) (ok-injective (objects, interactions) after h) n,
  subst (λ m. NamedDefs (λ d. d.name) m.1.defs) (ok-injective (objects, interactions) after h) i,
)
merge_all-NamedDefs (m ∷ modules) objects interactions after n i h =
    let first =
      >>=-eq-ok (merge_each merge_object_class m.object_classes objects)
        (λ o.
          merge_each merge_interaction_class m.interaction_classes interactions
          >>= (λ j. merge_all modules o j))
        h in
    let second =
      >>=-eq-ok (merge_each merge_interaction_class m.interaction_classes interactions)
        (λ j. merge_all modules first.0 j) first.2 in
    merge_all-NamedDefs modules first.0 second.0 after
      (merge_each-NamedDefs (λ d. d.name) merge_object_class merge_object_class-NamedDefs
        m.object_classes objects first.0 n first.1)
      (merge_each-NamedDefs (λ d. d.name) merge_interaction_class merge_interaction_class-NamedDefs
        m.interaction_classes interactions second.0 i second.1)
      second.2

-- The object and interaction classes of a merged model, as tables of names.
pub record NamesAgree (fom : MergedFom) : Type 0 where
  pub objects :
      (k : String) (h : ℕ)
      → object_class_handle fom k ≡ some h
      → (h < 2 ^ 32) × ((d : ObjectClassDef) × ((object_class_def fom h ≡ some d) × (d.name ≡ k)))
  pub interactions :
      (k : String) (h : ℕ)
      → interaction_class_handle fom k ≡ some h
      → (h < 2 ^ 32)
        × ((d : InteractionClassDef) × ((interaction_class_def fom h ≡ some d) × (d.name ≡ k)))

-- When a union of modules has fewer than 2 ^ 32 - 1 classes of each kind, the handle of every name
-- in the merged model has 32 bits and leads to the definition of that name.
pub merge_modules-NamesAgree :
    (modules : List FomModule) (fom : MergedFom)
    → merge_modules modules ≡ ok fom
    → length fom.object_classes + 1 < 2 ^ 32
    → length fom.interaction_classes + 1 < 2 ^ 32
    → NamesAgree fom
unfolding merge_modules fom_of get object_class_handle object_class_def interaction_class_handle
    interaction_class_def
merge_modules-NamesAgree modules fom h o_fits i_fits =
    let bound =
      >>=-eq-ok
        (merge_all modules (nothing_merged ObjectClassDef) (nothing_merged InteractionClassDef))
        (λ merged. ok (fom_of merged.0 merged.1)) h in
    let named : NamedDefs (λ d. d.name) bound.0.0.defs × NamedDefs (λ d. d.name) bound.0.1.defs =
      merge_all-NamedDefs modules (nothing_merged ObjectClassDef)
        (nothing_merged InteractionClassDef) bound.0 (λ k d e. absurd (none-ne-some d e))
        (λ k d e. absurd (none-ne-some d e)) bound.1 in
    let same : fom_of bound.0.0 bound.0.1 ≡ fom =
      ok-injective (fom_of bound.0.0 bound.0.1) fom bound.2 in
    let o : Good (λ d. d.name) (assign_all (λ d. d.parent) attribute_names bound.0.0) =
      assign_all-Good (λ d. d.name) attribute_names (λ d. d.parent) bound.0.0 named.0
        (subst (λ x. length x.object_classes + 1 < 2 ^ 32) (sym same) o_fits) in
    let i : Good (λ d. d.name) (assign_all (λ d. d.parent) parameter_names bound.0.1) =
      assign_all-Good (λ d. d.name) parameter_names (λ d. d.parent) bound.0.1 named.1
        (subst (λ x. length x.interaction_classes + 1 < 2 ^ 32) (sym same) i_fits) in
    let o_fits' : Fits (λ d. d.name) (assign_all (λ d. d.parent) attribute_names bound.0.0) =
      subst (λ x. length x.object_classes + 1 < 2 ^ 32) (sym same) o_fits in
    let i_fits' : Fits (λ d. d.name) (assign_all (λ d. d.parent) parameter_names bound.0.1) =
      subst (λ x. length x.interaction_classes + 1 < 2 ^ 32) (sym same) i_fits in
    subst NamesAgree same (record {
      objects = λ k h e.
          Good-bounded (λ d. d.name) (assign_all (λ d. d.parent) attribute_names bound.0.0) o
            o_fits' k h e;
      interactions = λ k h e.
          Good-bounded (λ d. d.name) (assign_all (λ d. d.parent) parameter_names bound.0.1) i
            i_fits' k h e;
    })
