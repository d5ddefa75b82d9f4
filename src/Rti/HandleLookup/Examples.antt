-- ===== src/Rti/HandleLookup/Examples.antt =====
-- The names of a model of two modules.
use hla4_rs.Prelude.{ℕ, ◌≡◌, refl, List, [], ◌∷◌, some, none, ok, arith}
use hla4_rs.Omt.Fom.{ObjectClassDef, InteractionClassDef, FomModule, MergedFom, receive}
use hla4_rs.Prelude.Map.{get}
use hla4_rs.Omt.Merge.{merge_modules}
use hla4_rs.Rti.State.{
  Federation, get_object_class_handle_response, get_object_class_name_response,
  get_interaction_class_handle_response, get_interaction_class_name_response,
}
use hla4_rs.Rti.Samples.{session_of, two_federates}
use hla4_rs.Rti.HandleLookup.{
  get_object_class_handle, get_object_class_name, get_interaction_class_handle,
  get_interaction_class_name,
}
use hla4_rs.Rti.HandleLookup.RoundTrip.{class_names_round_trip}

abbrev root : ObjectClassDef
root = record { name = "Root"; parent = none; attributes = []; semantics = none }

abbrev drink : ObjectClassDef
drink = record { name = "Drink"; parent = some "Root"; attributes = []; semantics = none }

abbrev order : InteractionClassDef
order = record {
  name = "Order";
  parent = none;
  order = receive;
  transportation = "HLAreliable";
  parameters = [];
  semantics = none;
}

abbrev modules : List FomModule
modules =
    record { object_classes = root ∷ []; interaction_classes = order ∷ [] }
    ∷ record { object_classes = drink ∷ []; interaction_classes = [] }
    ∷ []

abbrev fom : MergedFom
fom = record {
  object_classes = (1, root) ∷ (2, drink) ∷ [];
  interaction_classes = (1, order) ∷ [];
  object_class_table = ("Root", 1) ∷ ("Drink", 2) ∷ [];
  interaction_class_table = ("Order", 1) ∷ [];
  attribute_table = [];
  parameter_table = [];
  dimension_table = [];
}

merged : merge_modules modules ≡ ok fom
unfolding merge_modules
merged = refl

abbrev federation : Federation ℕ
federation = record two_federates { fom = fom }

abbrev second : List ℕ
second = 0 ∷ 0 ∷ 0 ∷ 2 ∷ []

lookup_test :
    get_object_class_handle (session_of 1) federation "Drink"
    ≡ get_object_class_handle_response second
unfolding get_object_class_handle get
lookup_test = refl

class_names_round_trip_example :
    (get_object_class_handle (session_of 1) federation "Drink"
        ≡ get_object_class_handle_response second
      → get_object_class_name (session_of 1) federation second
        ≡ get_object_class_name_response "Drink")
    × (get_interaction_class_handle (session_of 1) federation "Drink"
          ≡ get_interaction_class_handle_response second
        → get_interaction_class_name (session_of 1) federation second
          ≡ get_interaction_class_name_response "Drink")
class_names_round_trip_example =
    class_names_round_trip (session_of 1) federation
      (record { federate_handle = 1; federate_name = "member" }) modules refl merged (omega arith)
      (omega arith) "Drink" second
