-- ===== src/Rti/Callback.antt =====
-- crates/hla-rti/src/routing.rs: the callbacks that the modelled handlers send, by the function
-- that builds each. Handles are their raw numbers, a logical time is its eight bytes; the protobuf
-- text of a callback is the business of the generated code.
use Prim.Native.String.{String}
use hla4_rs.Prelude.{ℕ, List}

pub data Callback : Type 0 where
  -- an object instance, its class, its name and the federate that registered it
  discover_object_instance : ℕ → ℕ → String → ℕ → Callback
  attribute_ownership_acquisition_notification : ℕ → List ℕ → List ℕ → Callback
  attribute_ownership_unavailable : ℕ → List ℕ → List ℕ → Callback
  inform_attribute_ownership : ℕ → List ℕ → ℕ → Callback
  attribute_is_not_owned : ℕ → List ℕ → Callback
  initiate_federate_save : String → Callback
  federation_saved : Callback
  federation_not_saved : ℕ → Callback
  synchronization_point_registration_succeeded : String → Callback
  synchronization_point_registration_failed : String → ℕ → Callback
  announce_synchronization_point : String → List ℕ → Callback
  federation_synchronized : String → List ℕ → Callback
  start_registration_for_object_class : ℕ → Callback
  stop_registration_for_object_class : ℕ → Callback
  time_regulation_enabled : List ℕ → Callback
  time_constrained_enabled : List ℕ → Callback
  time_advance_grant : List ℕ → Callback
  turn_interactions_on turn_interactions_off : ℕ → Callback
  -- an object instance, the values, the tag and the producer, with the time for the second
  reflect_attribute_values : ℕ → List (ℕ × List ℕ) → List ℕ → ℕ → Callback
  reflect_attribute_values_with_time : ℕ → List (ℕ × List ℕ) → List ℕ → ℕ → List ℕ → Callback
  receive_interaction : ℕ → List (ℕ × List ℕ) → List ℕ → ℕ → Callback
  receive_interaction_with_time : ℕ → List (ℕ × List ℕ) → List ℕ → ℕ → List ℕ → Callback
  remove_object_instance : ℕ → List ℕ → ℕ → Callback
  remove_object_instance_with_time : ℕ → List ℕ → ℕ → List ℕ → Callback
  -- any other callback, such as a directed interaction held in a queue
  other : List ℕ → Callback
