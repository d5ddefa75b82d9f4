-- ===== src/Rti/DataFlow/Interactions.antt =====
-- crates/hla-rti/src/dispatch/data_flow.rs: the sending of an interaction, and the arms of object
-- management in the table of calls of dispatch/mod.rs.
use Prim.Native.String.{String}
use hla4_rs.Prelude.{ℕ, List, Bool, true, false, Option, none, some, Result, ok, err}
use hla4_rs.Prelude.Eq.{nat_eq}
use hla4_rs.Prelude.Map.{get}
use hla4_rs.Prelude.Sets.{contains}
use hla4_rs.Omt.Fom.{interaction_class_def}
use hla4_rs.Rti.Exception.{
  HlaException, federate_not_execution_member, invalid_interaction_class_handle,
  interaction_class_not_defined, interaction_class_not_published,
}
use hla4_rs.Rti.Callback.{receive_interaction, receive_interaction_with_time}
use hla4_rs.Rti.Handles.{decoded, decode_interaction_class}
use hla4_rs.Rti.State.{
  Federation, FederateSession, Node, SessionContext, send_interaction_response,
  send_interaction_with_time_response,
}
use hla4_rs.Rti.Routing.{live_connections, fan_out}
use hla4_rs.Rti.Handler.{Outcome, exception_variant}
use hla4_rs.Rti.F64.{F64}
use hla4_rs.Rti.TimeManagement.{decode_logical_time}
use hla4_rs.Rti.DataFlow.{
  Entry, decode_parameter_value_map, subscribers_for_interaction, route_tso_or_immediate,
}
use hla4_rs.Rti.DataFlow.Objects.{
  stamp_of, register_object_instance, update_attribute_values, delete_object_instance,
  update_attribute_values_with_time, delete_object_instance_with_time,
}

-- Whether the federate, if it is there, publishes the class.
abbrev pub publishes : {T : Type 0} → ℕ → Option (FederateSession T) → Result HlaException Bool
publishes class none = err federate_not_execution_member
publishes class (some fs) = ok (contains class fs.pub_sub.published_interactions)

module _ {T : Type 0} (node : Node) (ctx : SessionContext) (federation : Federation T) where
  unfoldable pub send_interaction : Option (List ℕ) → Option (List Entry) → List ℕ → Outcome T
  unfolding decode_interaction_class interaction_class_def get contains decode_parameter_value_map
      subscribers_for_interaction live_connections fan_out
  send_interaction class params tag = elim ctx.membership [
    | none ↦ exception_variant federation federate_not_execution_member
    | some m ↦ elim (decoded decode_interaction_class class) [
      | none ↦ exception_variant federation invalid_interaction_class_handle
      | some c ↦ elim (interaction_class_def federation.fom c) [
        | none ↦ exception_variant federation interaction_class_not_defined
        | some _ ↦ elim (publishes c (get m.federate_handle federation.federates)) [
          | err e ↦ exception_variant federation e
          | ok false ↦ exception_variant federation interaction_class_not_published
          | ok true ↦ elim (decode_parameter_value_map params) [
            | err e ↦ exception_variant federation e
            | ok vs ↦ record {
              federation = federation;
              callbacks =
                  fan_out
                    (live_connections node federation
                      (subscribers_for_interaction federation c (some m.federate_handle)))
                    (receive_interaction c vs tag m.federate_handle);
              response = send_interaction_response;
            }
          ]
        ]
      ]
    ]
  ]

module _ (f : F64) (node : Node) (ctx : SessionContext) (federation : Federation f.T) where
  unfoldable pub send_interaction_with_time :
      Option (List ℕ) → Option (List Entry) → List ℕ → Option (List ℕ) → Outcome f.T
  unfolding decode_interaction_class interaction_class_def get contains decode_parameter_value_map
      decode_logical_time subscribers_for_interaction route_tso_or_immediate
  send_interaction_with_time class params tag time = elim ctx.membership [
    | none ↦ exception_variant federation federate_not_execution_member
    | some m ↦ elim (decoded decode_interaction_class class) [
      | none ↦ exception_variant federation invalid_interaction_class_handle
      | some c ↦ elim (interaction_class_def federation.fom c) [
        | none ↦ exception_variant federation interaction_class_not_defined
        | some _ ↦ elim (publishes c (get m.federate_handle federation.federates)) [
          | err e ↦ exception_variant federation e
          | ok false ↦ exception_variant federation interaction_class_not_published
          | ok true ↦ elim (decode_parameter_value_map params) [
            | err e ↦ exception_variant federation e
            | ok vs ↦ elim (stamp_of f time) [
              | err e ↦ exception_variant federation e
              | ok t ↦
                  let sent =
                    route_tso_or_immediate f node federation
                      (subscribers_for_interaction federation c (some m.federate_handle)) t
                      (receive_interaction_with_time c vs tag m.federate_handle
                        (f.to_be_bytes t)) in
                  record {
                    federation = sent.0;
                    callbacks = sent.1;
                    response = send_interaction_with_time_response;
                  }
            ]
          ]
        ]
      ]
    ]
  ]

-- The calls of the service group.
pub data ObjectCall : Type 0 where
  register : Option (List ℕ) → ObjectCall
  register_with_name : Option (List ℕ) → String → ObjectCall
  update : Option (List ℕ) → Option (List Entry) → List ℕ → ObjectCall
  send : Option (List ℕ) → Option (List Entry) → List ℕ → ObjectCall
  delete : Option (List ℕ) → List ℕ → ObjectCall
  update_with_time : Option (List ℕ) → Option (List Entry) → List ℕ → Option (List ℕ) → ObjectCall
  send_with_time : Option (List ℕ) → Option (List Entry) → List ℕ → Option (List ℕ) → ObjectCall
  delete_with_time : Option (List ℕ) → List ℕ → Option (List ℕ) → ObjectCall

module _ (f : F64) (object_name : ℕ → String) (node : Node) (ctx : SessionContext)
    (federation : Federation f.T) where
  unfoldable pub dispatch_object : ObjectCall → Outcome f.T
  unfolding register_object_instance update_attribute_values send_interaction delete_object_instance
      update_attribute_values_with_time send_interaction_with_time delete_object_instance_with_time
  dispatch_object (register class) =
      register_object_instance object_name node ctx federation class none
  dispatch_object (register_with_name class name) =
      register_object_instance object_name node ctx federation class (some name)
  dispatch_object (update instance' values tag) =
      update_attribute_values node ctx federation instance' values tag
  dispatch_object (send class params tag) = send_interaction node ctx federation class params tag
  dispatch_object (delete instance' tag) = delete_object_instance node ctx federation instance' tag
  dispatch_object (update_with_time instance' values tag time) =
      update_attribute_values_with_time f node ctx federation instance' values tag time
  dispatch_object (send_with_time class params tag time) =
      send_interaction_with_time f node ctx federation class params tag time
  dispatch_object (delete_with_time instance' tag time) =
      delete_object_instance_with_time f node ctx federation instance' tag time
