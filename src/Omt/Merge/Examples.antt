-- ===== src/Omt/Merge/Examples.antt =====
-- A module that adds an attribute to a class of another, and one that contradicts it.
use hla4_rs.Prelude.{ℕ, ◌≡◌, refl, List, [], ◌∷◌, some, none, Result, ok, err}
use hla4_rs.Prelude.Map.{keys}
use hla4_rs.Omt.Fom.{
  AttributeDef, ObjectClassDef, FomModule, receive, timestamp_order, divest_acquire,
  publish_subscribe, conditional,
}
use hla4_rs.Omt.Merge.{FomError, merge_conflict, merge_modules}

abbrev flavor : AttributeDef
flavor = record {
  name = "Flavor";
  datatype = "HLAunicodeString";
  order = receive;
  transportation = "HLAreliable";
  ownership = divest_acquire;
  sharing = publish_subscribe;
  update_type = conditional;
  dimensions = [];
}

abbrev drink : List AttributeDef → ObjectClassDef
drink attributes = record {
  name = "Drink";
  parent = some "Root";
  attributes = attributes;
  semantics = none;
}

abbrev root : ObjectClassDef
root = record { name = "Root"; parent = none; attributes = []; semantics = none }

abbrev module_of : List ObjectClassDef → FomModule
module_of classes = record { object_classes = classes; interaction_classes = [] }

-- The classes get their handles from the root down.
merge_test :
    (elim (merge_modules
        (module_of (root ∷ drink [] ∷ []) ∷ module_of (drink (flavor ∷ []) ∷ []) ∷ []))
      as (λ r. Result FomError (List ℕ)) [ ok fom ↦ ok (keys fom.object_classes) | err e ↦ err e ])
    ≡ ok (1 ∷ 2 ∷ [])
unfolding merge_modules
merge_test = refl

conflict_test :
    merge_modules (
      module_of (root ∷ drink (flavor ∷ []) ∷ [])
      ∷ module_of (drink (record flavor { order = timestamp_order } ∷ []) ∷ [])
      ∷ [])
    ≡ err merge_conflict
unfolding merge_modules
conflict_test = refl
