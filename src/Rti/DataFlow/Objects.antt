-- ===== src/Rti/DataFlow/Objects.antt =====
-- crates/hla-rti/src/dispatch/object_mgmt.rs and data_flow.rs: registration, update and deletion of
-- an object instance. `object_name` stands for `format!("HLA{raw_id}")`.
use Prim.Native.String.{String}
use hla4_rs.Prelude.{
  ℕ, ◌+◌, ◌%◌, ◌^◌, List, [], ◌∷◌, ◌++◌, Bool, true, false, ◌&&◌, ◌||◌, Option, none, some, Result,
  ok, err, ◌==◌, if◌then◌else◌, map,
}
use hla4_rs.Prelude.Eq.{nat_eq, string_eq}
use hla4_rs.Prelude.Map.{Map, get, insert, remove, contains_key, keys}
use hla4_rs.Omt.Fom.{object_class_def, inheritance_chain}
use hla4_rs.Rti.Exception.{
  HlaException, federate_not_execution_member, object_instance_not_known, attribute_not_owned,
  delete_privilege_not_held, invalid_object_class_handle, object_class_not_defined,
  object_class_not_published, object_instance_name_in_use, invalid_logical_time,
}
use hla4_rs.Rti.Callback.{
  reflect_attribute_values, reflect_attribute_values_with_time, remove_object_instance,
  remove_object_instance_with_time,
}
use hla4_rs.Rti.Handles.{decoded, decode_object_instance, decode_object_class}
use hla4_rs.Rti.Subscriptions.{or_else, subscribers_of_class}
use hla4_rs.Rti.State.{
  Federation, FederateSession, ObjectInstance, Node, SessionContext, Membership,
  update_attribute_values_response, update_attribute_values_with_time_response,
  delete_object_instance_response, delete_object_instance_with_time_response,
  register_object_instance_response,
}
use hla4_rs.Rti.Routing.{
  OutboundCallback, live_connections, fan_out, subscribers_for_attributes, add_but,
}
use hla4_rs.Rti.Handler.{Outcome, exception_variant}
use hla4_rs.Rti.F64.{F64}
use hla4_rs.Rti.TimeManagement.{decode_logical_time}
use hla4_rs.Rti.DataFlow.{
  Entry, decode_attribute_value_map, owns_all, announce_instance,
  notify_subscribers_of_registration_subset, matched_subscribers, forget, route_tso_or_immediate,
}

unfoldable pub name_in_use : String → Map ℕ ObjectInstance → Bool
name_in_use name [] = false
name_in_use name ((h, inst) ∷ instances) =
    string_eq.beq inst.name name || name_in_use name instances

-- The name of the new instance; none when the requested one is taken.
abbrev pub chosen_name : (ℕ → String) → ℕ → Map ℕ ObjectInstance → Option String → Option String
chosen_name object_name raw_id instances none = some (object_name raw_id)
chosen_name object_name raw_id instances (some n) = if name_in_use n instances then none else some n

abbrev pub owned_by : ℕ → List ℕ → Map ℕ ℕ
owned_by fh attrs = map (λ a. (a, fh)) attrs

-- Whether the caller may delete the instance.
abbrev pub deletable : Membership → Option ObjectInstance → Result HlaException ObjectInstance
deletable m none = err object_instance_not_known
deletable m (some inst) =
    if inst.registrar == m.federate_handle then ok inst else err delete_privilege_not_held

module _ {T : Type 0} where
  -- The federates that have subscribed to the class or to one above it, but the producer.
  unfoldable pub class_candidates : Federation T → ℕ → List ℕ → List ℕ → List ℕ
  unfolding subscribers_of_class add_but
  class_candidates federation producer [] out = out
  class_candidates federation producer (ancestor ∷ up) out =
      class_candidates federation producer up
        (add_but (some producer) (subscribers_of_class federation.subscriptions ancestor) out)

  unfoldable pub notify_subscribers_of_registration :
      Node → Federation T → ℕ → ℕ → String → ℕ → Federation T × List OutboundCallback
  unfolding class_candidates inheritance_chain announce_instance
  notify_subscribers_of_registration node federation instance' class name producer =
      announce_instance node federation instance' class name producer
        (class_candidates federation producer (inheritance_chain federation.fom class) [])

  -- The federation with the new instance, before the subscribers learn of it.
  unfoldable pub with_instance :
      Federation T → Membership → FederateSession T → ℕ → String → Federation T
  unfolding insert get
  with_instance federation m fs class name = record federation {
    next_object_id = (federation.next_object_id + 1) % 2 ^ 64;
    object_instances =
        insert federation.next_object_id
          (record {
            handle = federation.next_object_id;
            class = class;
            name = name;
            registrar = m.federate_handle;
            attribute_owners =
                owned_by m.federate_handle (or_else [] (get class fs.pub_sub.published_attrs));
            attribute_regions = [];
          })
          federation.object_instances;
  }

module _ {T : Type 0} (federation : Federation T) where
  -- The federation without the instance, and the federates that had discovered it.
  unfoldable pub without_instance : Membership → ℕ → Federation T × List ℕ
  unfolding remove forget
  without_instance m h =
      let left = forget m.federate_handle h federation.federates in
      (
        record federation {
          object_instances = remove h federation.object_instances;
          federates = left.0;
        },
        left.1,
      )

module _ {T : Type 0} (object_name : ℕ → String) (node : Node) (ctx : SessionContext)
    (federation : Federation T) where
  unfoldable pub register_object_instance : Option (List ℕ) → Option String → Outcome T
  unfolding decode_object_class object_class_def get contains_key name_in_use with_instance
      notify_subscribers_of_registration
  register_object_instance class requested_name = elim ctx.membership [
    | none ↦ exception_variant federation federate_not_execution_member
    | some m ↦ elim (decoded decode_object_class class) [
      | none ↦ exception_variant federation invalid_object_class_handle
      | some c ↦ elim (object_class_def federation.fom c) [
        | none ↦ exception_variant federation object_class_not_defined
        | some _ ↦ elim (get m.federate_handle federation.federates) [
          | none ↦ exception_variant federation federate_not_execution_member
          | some fs ↦ elim (contains_key c fs.pub_sub.published_attrs) [
            | false ↦ exception_variant federation object_class_not_published
            | true ↦
                elim (chosen_name object_name federation.next_object_id federation.object_instances
                  requested_name) [
                    | none ↦
                        exception_variant
                          (record federation {
                            next_object_id = (federation.next_object_id + 1) % 2 ^ 64;
                          })
                          object_instance_name_in_use
                    | some name ↦
                        let told =
                          notify_subscribers_of_registration node
                            (with_instance federation m fs c name) federation.next_object_id c name
                            m.federate_handle in
                        record {
                          federation = told.0;
                          callbacks = told.1;
                          response = register_object_instance_response federation.next_object_id;
                        }
                  ]
          ]
        ]
      ]
    ]
  ]

module _ {T : Type 0} (node : Node) (ctx : SessionContext) (federation : Federation T) where
  unfoldable pub update_attribute_values :
      Option (List ℕ) → Option (List Entry) → List ℕ → Outcome T
  unfolding decode_object_instance decode_attribute_value_map get owns_all
      subscribers_for_attributes matched_subscribers notify_subscribers_of_registration_subset
      live_connections fan_out
  update_attribute_values instance' values tag = elim ctx.membership [
    | none ↦ exception_variant federation federate_not_execution_member
    | some m ↦ elim (decoded decode_object_instance instance') [
      | none ↦ exception_variant federation object_instance_not_known
      | some h ↦ elim (decode_attribute_value_map values) [
        | err e ↦ exception_variant federation e
        | ok vs ↦ elim (get h federation.object_instances) [
          | none ↦ exception_variant federation object_instance_not_known
          | some inst ↦ elim (owns_all m.federate_handle inst.attribute_owners (keys vs)) [
            | false ↦ exception_variant federation attribute_not_owned
            | true ↦
                let interested =
                  subscribers_for_attributes federation inst.class (keys vs)
                    (some m.federate_handle) in
                let subscribers =
                  matched_subscribers federation interested h inst.class (keys vs) in
                let told =
                  notify_subscribers_of_registration_subset node federation h inst.class
                    m.federate_handle subscribers in
                record {
                  federation = told.0;
                  callbacks =
                      told.1
                      ++ fan_out (live_connections node told.0 subscribers)
                          (reflect_attribute_values h vs tag m.federate_handle);
                  response = update_attribute_values_response;
                }
          ]
        ]
      ]
    ]
  ]

  unfoldable pub delete_object_instance : Option (List ℕ) → List ℕ → Outcome T
  unfolding decode_object_instance get without_instance live_connections fan_out
  delete_object_instance instance' tag = elim ctx.membership [
    | none ↦ exception_variant federation federate_not_execution_member
    | some m ↦ elim (decoded decode_object_instance instance') [
      | none ↦ exception_variant federation object_instance_not_known
      | some h ↦ elim (deletable m (get h federation.object_instances)) [
        | err e ↦ exception_variant federation e
        | ok inst ↦
            let left = without_instance federation m h in
            record {
              federation = left.0;
              callbacks =
                  fan_out (live_connections node left.0 left.1)
                    (remove_object_instance h tag m.federate_handle);
              response = delete_object_instance_response;
            }
      ]
    ]
  ]

module _ (f : F64) where
  abbrev pub stamp_of : Option (List ℕ) → Result HlaException f.T
  stamp_of none = err invalid_logical_time
  stamp_of (some bytes) = decode_logical_time f bytes

  -- A regulating federate's message is not before its time and lookahead.
  abbrev pub too_early : f.T → Option (FederateSession f.T) → Bool
  too_early time none = false
  too_early time (some fs) =
      fs.time.is_regulating && f.lt time (f.add fs.time.current_time fs.time.lookahead)

module _ (f : F64) (node : Node) (ctx : SessionContext) (federation : Federation f.T) where
  unfoldable pub update_attribute_values_with_time :
      Option (List ℕ) → Option (List Entry) → List ℕ → Option (List ℕ) → Outcome f.T
  unfolding decode_object_instance decode_attribute_value_map decode_logical_time get owns_all
      subscribers_for_attributes notify_subscribers_of_registration_subset route_tso_or_immediate
  update_attribute_values_with_time instance' values tag time = elim ctx.membership [
    | none ↦ exception_variant federation federate_not_execution_member
    | some m ↦ elim (decoded decode_object_instance instance') [
      | none ↦ exception_variant federation object_instance_not_known
      | some h ↦ elim (decode_attribute_value_map values) [
        | err e ↦ exception_variant federation e
        | ok vs ↦ elim (stamp_of f time) [
          | err e ↦ exception_variant federation e
          | ok t ↦ elim (get h federation.object_instances) [
            | none ↦ exception_variant federation object_instance_not_known
            | some inst ↦ elim (owns_all m.federate_handle inst.attribute_owners (keys vs)) [
              | false ↦ exception_variant federation attribute_not_owned
              | true ↦ elim (too_early f t (get m.federate_handle federation.federates)) [
                | true ↦ exception_variant federation invalid_logical_time
                | false ↦
                    let subscribers =
                      subscribers_for_attributes federation inst.class (keys vs)
                        (some m.federate_handle) in
                    let told =
                      notify_subscribers_of_registration_subset node federation h inst.class
                        m.federate_handle subscribers in
                    let sent = route_tso_or_immediate f node told.0 subscribers t (
                      reflect_attribute_values_with_time h vs tag m.federate_handle
                        (f.to_be_bytes t)) in
                    record {
                      federation = sent.0;
                      callbacks = told.1 ++ sent.1;
                      response = update_attribute_values_with_time_response;
                    }
              ]
            ]
          ]
        ]
      ]
    ]
  ]

  unfoldable pub delete_object_instance_with_time :
      Option (List ℕ) → List ℕ → Option (List ℕ) → Outcome f.T
  unfolding decode_object_instance decode_logical_time get without_instance route_tso_or_immediate
  delete_object_instance_with_time instance' tag time = elim ctx.membership [
    | none ↦ exception_variant federation federate_not_execution_member
    | some m ↦ elim (decoded decode_object_instance instance') [
      | none ↦ exception_variant federation object_instance_not_known
      | some h ↦ elim (stamp_of f time) [
        | err e ↦ exception_variant federation e
        | ok t ↦ elim (deletable m (get h federation.object_instances)) [
          | err e ↦ exception_variant federation e
          | ok inst ↦
              let left = without_instance federation m h in
              let sent =
                route_tso_or_immediate f node left.0 left.1 t
                  (remove_object_instance_with_time h tag m.federate_handle (f.to_be_bytes t)) in
              record {
                federation = sent.0;
                callbacks = sent.1;
                response = delete_object_instance_with_time_response;
              }
        ]
      ]
    ]
  ]
