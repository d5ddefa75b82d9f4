-- ===== src/Rti/DataFlow/Calls.antt =====
-- crates/hla-rti/src/dispatch/object_mgmt.rs and data_flow.rs: every call keeps the queues sorted.
use Prim.Native.String.{String}
use hla4_rs.Prelude.{
  ℕ, List, true, false, Option, none, some, Result-cases, Option-cases, Bool-cases, inl, inr,
}
use hla4_rs.Prelude.Eq.{nat_eq}
use hla4_rs.Prelude.Map.{get, keys}
use hla4_rs.Omt.Fom.{interaction_class_def}
use hla4_rs.Rti.Callback.{
  remove_object_instance_with_time, receive_interaction_with_time,
  reflect_attribute_values_with_time,
}
use hla4_rs.Rti.Handles.{decoded, decode_object_instance, decode_interaction_class}
use hla4_rs.Rti.State.{Federation, Node, SessionContext}
use hla4_rs.Rti.Routing.{subscribers_for_attributes}
use hla4_rs.Rti.F64.{F64, IsIeee}
use hla4_rs.Rti.DataFlow.{
  Entry, decode_attribute_value_map, decode_parameter_value_map, owns_all,
  notify_subscribers_of_registration_subset, subscribers_for_interaction,
}
use hla4_rs.Rti.DataFlow.Objects.{
  update_attribute_values_with_time, deletable, without_instance, delete_object_instance_with_time,
  stamp_of, too_early,
}
use hla4_rs.Rti.DataFlow.Interactions.{
  publishes, send_interaction_with_time, ObjectCall, register, register_with_name, update, send,
  delete, update_with_time, send_with_time, delete_with_time, dispatch_object,
}
use hla4_rs.Rti.DataFlow.Queues.{
  QueuesSorted, route_tso_or_immediate-QueuesSorted, forget-QueuesSorted, subset-QueuesSorted,
}
use hla4_rs.Rti.DataFlow.Untimed.{
  register_object_instance-QueuesSorted, update_attribute_values-QueuesSorted,
  send_interaction-QueuesSorted, delete_object_instance-QueuesSorted,
}

module _ (f : F64) (ieee : IsIeee f) (node : Node) (ctx : SessionContext)
    (federation : Federation f.T) (sorted : QueuesSorted f federation.federates) where
  update_attribute_values_with_time-QueuesSorted :
      (instance' : Option (List ℕ)) (values : Option (List Entry)) (tag : List ℕ)
      (time : Option (List ℕ))
      → QueuesSorted f
          (update_attribute_values_with_time f node ctx federation instance' values tag
            time).federation.federates
  unfolding update_attribute_values_with_time
  update_attribute_values_with_time-QueuesSorted instance' values tag time =
      elim (Option-cases ctx.membership) [
        | inl e ↦ rw (update_attribute_values_with_time, e) sorted
        | inr (m, e) ↦ elim (Option-cases (decoded decode_object_instance instance')) [
          | inl d ↦ rw (update_attribute_values_with_time, e, d) sorted
          | inr (h, d) ↦ elim (Result-cases (decode_attribute_value_map values)) [
            | inr (v', v) ↦ rw (update_attribute_values_with_time, e, d, v) sorted
            | inl (vs, v) ↦ elim (Result-cases (stamp_of f time)) [
              | inr (t', t) ↦ rw (update_attribute_values_with_time, e, d, v, t) sorted
              | inl (time', t) ↦ elim (Option-cases (get h federation.object_instances)) [
                | inl g ↦ rw (update_attribute_values_with_time, e, d, v, t, g) sorted
                | inr (inst, g) ↦
                    elim (Bool-cases (owns_all m.federate_handle inst.attribute_owners (keys vs))) [
                      | inr k ↦ rw (update_attribute_values_with_time, e, d, v, t, g, k) sorted
                      | inl k ↦
                          elim (Bool-cases
                            (too_early f time' (get m.federate_handle federation.federates))) [
                              | inl y ↦
                                  rw (update_attribute_values_with_time, e, d, v, t, g, k, y) sorted
                              | inr y ↦
                                  let subscribers : List ℕ =
                                    subscribers_for_attributes federation inst.class (keys vs)
                                      (some m.federate_handle) in
                                  rw (update_attribute_values_with_time, e, d, v, t, g, k, y)
                                    (route_tso_or_immediate-QueuesSorted f ieee node
                                      (notify_subscribers_of_registration_subset node federation h
                                        inst.class m.federate_handle subscribers).0
                                      subscribers time'
                                      (reflect_attribute_values_with_time h vs tag m.federate_handle
                                        (f.to_be_bytes time'))
                                      (subset-QueuesSorted f node federation h inst.class
                                        m.federate_handle subscribers sorted))
                            ]
                    ]
              ]
            ]
          ]
        ]
      ]

  send_interaction_with_time-QueuesSorted :
      (class : Option (List ℕ)) (params : Option (List Entry)) (tag : List ℕ)
      (time : Option (List ℕ))
      → QueuesSorted f
          (send_interaction_with_time f node ctx federation class params tag
            time).federation.federates
  unfolding send_interaction_with_time
  send_interaction_with_time-QueuesSorted class params tag time =
      elim (Option-cases ctx.membership) [
        | inl e ↦ rw (send_interaction_with_time, e) sorted
        | inr (m, e) ↦ elim (Option-cases (decoded decode_interaction_class class)) [
          | inl d ↦ rw (send_interaction_with_time, e, d) sorted
          | inr (c, d) ↦ elim (Option-cases (interaction_class_def federation.fom c)) [
            | inl x ↦ rw (send_interaction_with_time, e, d, x) sorted
            | inr (def, x) ↦
                elim (Result-cases (publishes c (get m.federate_handle federation.federates))) [
                  | inr (p', p) ↦ rw (send_interaction_with_time, e, d, x, p) sorted
                  | inl (false, p) ↦ rw (send_interaction_with_time, e, d, x, p) sorted
                  | inl (true, p) ↦ elim (Result-cases (decode_parameter_value_map params)) [
                    | inr (v', v) ↦ rw (send_interaction_with_time, e, d, x, p, v) sorted
                    | inl (vs, v) ↦ elim (Result-cases (stamp_of f time)) [
                      | inr (t', t) ↦ rw (send_interaction_with_time, e, d, x, p, v, t) sorted
                      | inl (time', t) ↦
                          rw (send_interaction_with_time, e, d, x, p, v, t)
                            (route_tso_or_immediate-QueuesSorted f ieee node federation
                              (subscribers_for_interaction federation c (some m.federate_handle))
                              time'
                              (receive_interaction_with_time c vs tag m.federate_handle
                                (f.to_be_bytes time'))
                              sorted)
                    ]
                  ]
                ]
          ]
        ]
      ]

  delete_object_instance_with_time-QueuesSorted :
      (instance' : Option (List ℕ)) (tag : List ℕ) (time : Option (List ℕ))
      → QueuesSorted f
          (delete_object_instance_with_time f node ctx federation instance' tag
            time).federation.federates
  unfolding delete_object_instance_with_time without_instance
  delete_object_instance_with_time-QueuesSorted instance' tag time =
      elim (Option-cases ctx.membership) [
        | inl e ↦ rw (delete_object_instance_with_time, e) sorted
        | inr (m, e) ↦ elim (Option-cases (decoded decode_object_instance instance')) [
          | inl d ↦ rw (delete_object_instance_with_time, e, d) sorted
          | inr (h, d) ↦ elim (Result-cases (stamp_of f time)) [
            | inr (t', t) ↦ rw (delete_object_instance_with_time, e, d, t) sorted
            | inl (time', t) ↦
                elim (Result-cases (deletable m (get h federation.object_instances))) [
                  | inr (g', g) ↦ rw (delete_object_instance_with_time, e, d, t, g) sorted
                  | inl (inst, g) ↦
                      rw (delete_object_instance_with_time, e, d, t, g)
                        (route_tso_or_immediate-QueuesSorted f ieee node
                          (without_instance federation m h).0 (without_instance federation m h).1
                          time'
                          (remove_object_instance_with_time h tag m.federate_handle
                            (f.to_be_bytes time'))
                          (forget-QueuesSorted f m.federate_handle h federation.federates sorted))
                ]
          ]
        ]
      ]

module _ (f : F64) (ieee : IsIeee f) (object_name : ℕ → String) (node : Node) (ctx : SessionContext)
    (federation : Federation f.T) where
  -- Every call of object management, whether it succeeds or not, keeps the queue of time-stamp
  -- ordered messages of every federate sorted by time, when the operations on times follow IEEE 754.
  pub dispatch_object-QueuesSorted :
      (call : ObjectCall)
      → QueuesSorted f federation.federates
      → QueuesSorted f (dispatch_object f object_name node ctx federation call).federation.federates
  unfolding dispatch_object
  dispatch_object-QueuesSorted (register class) s =
      register_object_instance-QueuesSorted f node ctx federation s object_name class none
  dispatch_object-QueuesSorted (register_with_name class name) s =
      register_object_instance-QueuesSorted f node ctx federation s object_name class (some name)
  dispatch_object-QueuesSorted (update instance' values tag) s =
      update_attribute_values-QueuesSorted f node ctx federation s instance' values tag
  dispatch_object-QueuesSorted (send class params tag) s =
      send_interaction-QueuesSorted f node ctx federation s class params tag
  dispatch_object-QueuesSorted (delete instance' tag) s =
      delete_object_instance-QueuesSorted f node ctx federation s instance' tag
  dispatch_object-QueuesSorted (update_with_time instance' values tag time) s =
      update_attribute_values_with_time-QueuesSorted f ieee node ctx federation s instance' values
        tag time
  dispatch_object-QueuesSorted (send_with_time class params tag time) s =
      send_interaction_with_time-QueuesSorted f ieee node ctx federation s class params tag time
  dispatch_object-QueuesSorted (delete_with_time instance' tag time) s =
      delete_object_instance_with_time-QueuesSorted f ieee node ctx federation s instance' tag time
