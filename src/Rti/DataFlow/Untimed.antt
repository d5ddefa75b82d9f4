-- ===== src/Rti/DataFlow/Untimed.antt =====
-- crates/hla-rti/src/dispatch/object_mgmt.rs and data_flow.rs: the calls without a time and the queues.
use Prim.Native.String.{String}
use hla4_rs.Prelude.{
  ℕ, List, [], true, false, Option, some, Result-cases, Option-cases, Bool-cases, inl, inr,
}
use hla4_rs.Prelude.Eq.{nat_eq}
use hla4_rs.Prelude.Map.{get, contains_key, keys}
use hla4_rs.Omt.Fom.{object_class_def, interaction_class_def, inheritance_chain}
use hla4_rs.Rti.Handles.{
  decoded, decode_object_instance, decode_object_class, decode_interaction_class,
}
use hla4_rs.Rti.State.{Federation, Node, SessionContext}
use hla4_rs.Rti.Routing.{subscribers_for_attributes}
use hla4_rs.Rti.F64.{F64}
use hla4_rs.Rti.DataFlow.{
  Entry, decode_attribute_value_map, decode_parameter_value_map, owns_all, matched_subscribers,
}
use hla4_rs.Rti.DataFlow.Objects.{
  chosen_name, class_candidates, notify_subscribers_of_registration, with_instance,
  register_object_instance, update_attribute_values, deletable, without_instance,
  delete_object_instance,
}
use hla4_rs.Rti.DataFlow.Interactions.{publishes, send_interaction}
use hla4_rs.Rti.DataFlow.Queues.{
  QueuesSorted, forget-QueuesSorted, announce_instance-QueuesSorted, subset-QueuesSorted,
}

module _ (f : F64) (node : Node) (ctx : SessionContext) (federation : Federation f.T)
    (sorted : QueuesSorted f federation.federates) where
  pub register_object_instance-QueuesSorted :
      (object_name : ℕ → String) (class : Option (List ℕ)) (name : Option String)
      → QueuesSorted f
          (register_object_instance object_name node ctx federation class name).federation.federates
  unfolding register_object_instance notify_subscribers_of_registration with_instance
  register_object_instance-QueuesSorted object_name class name =
      elim (Option-cases ctx.membership) [
        | inl e ↦ rw (register_object_instance, e) sorted
        | inr (m, e) ↦ elim (Option-cases (decoded decode_object_class class)) [
          | inl d ↦ rw (register_object_instance, e, d) sorted
          | inr (c, d) ↦ elim (Option-cases (object_class_def federation.fom c)) [
            | inl x ↦ rw (register_object_instance, e, d, x) sorted
            | inr (def, x) ↦ elim (Option-cases (get m.federate_handle federation.federates)) [
              | inl g ↦ rw (register_object_instance, e, d, x, g) sorted
              | inr (fs, g) ↦ elim (Bool-cases (contains_key c fs.pub_sub.published_attrs)) [
                | inr k ↦ rw (register_object_instance, e, d, x, g, k) sorted
                | inl k ↦
                    elim (Option-cases (
                      chosen_name object_name federation.next_object_id federation.object_instances
                        name)) [
                          | inl n ↦ rw (register_object_instance, e, d, x, g, k, n) sorted
                          | inr (n', n) ↦
                              rw (register_object_instance, e, d, x, g, k, n)
                                (announce_instance-QueuesSorted f node
                                  (with_instance federation m fs c n') federation.next_object_id c
                                  n' m.federate_handle
                                  (class_candidates (with_instance federation m fs c n')
                                    m.federate_handle (inheritance_chain federation.fom c) [])
                                  sorted)
                        ]
              ]
            ]
          ]
        ]
      ]

  pub update_attribute_values-QueuesSorted :
      (instance' : Option (List ℕ)) (values : Option (List Entry)) (tag : List ℕ)
      → QueuesSorted f
          (update_attribute_values node ctx federation instance' values tag).federation.federates
  unfolding update_attribute_values
  update_attribute_values-QueuesSorted instance' values tag = elim (Option-cases ctx.membership) [
    | inl e ↦ rw (update_attribute_values, e) sorted
    | inr (m, e) ↦ elim (Option-cases (decoded decode_object_instance instance')) [
      | inl d ↦ rw (update_attribute_values, e, d) sorted
      | inr (h, d) ↦ elim (Result-cases (decode_attribute_value_map values)) [
        | inr (v', v) ↦ rw (update_attribute_values, e, d, v) sorted
        | inl (vs, v) ↦ elim (Option-cases (get h federation.object_instances)) [
          | inl g ↦ rw (update_attribute_values, e, d, v, g) sorted
          | inr (inst, g) ↦
              elim (Bool-cases (owns_all m.federate_handle inst.attribute_owners (keys vs))) [
                | inr k ↦ rw (update_attribute_values, e, d, v, g, k) sorted
                | inl k ↦
                    rw (update_attribute_values, e, d, v, g, k)
                      (subset-QueuesSorted f node federation h inst.class m.federate_handle
                        (matched_subscribers federation
                          (subscribers_for_attributes federation inst.class (keys vs)
                            (some m.federate_handle))
                          h inst.class (keys vs))
                        sorted)
              ]
        ]
      ]
    ]
  ]

  pub send_interaction-QueuesSorted :
      (class : Option (List ℕ)) (params : Option (List Entry)) (tag : List ℕ)
      → QueuesSorted f (send_interaction node ctx federation class params tag).federation.federates
  unfolding send_interaction
  send_interaction-QueuesSorted class params tag = elim (Option-cases ctx.membership) [
    | inl e ↦ rw (send_interaction, e) sorted
    | inr (m, e) ↦ elim (Option-cases (decoded decode_interaction_class class)) [
      | inl d ↦ rw (send_interaction, e, d) sorted
      | inr (c, d) ↦ elim (Option-cases (interaction_class_def federation.fom c)) [
        | inl x ↦ rw (send_interaction, e, d, x) sorted
        | inr (def, x) ↦
            elim (Result-cases (publishes c (get m.federate_handle federation.federates))) [
              | inr (p', p) ↦ rw (send_interaction, e, d, x, p) sorted
              | inl (false, p) ↦ rw (send_interaction, e, d, x, p) sorted
              | inl (true, p) ↦ elim (Result-cases (decode_parameter_value_map params)) [
                | inr (v', v) ↦ rw (send_interaction, e, d, x, p, v) sorted
                | inl (vs, v) ↦ rw (send_interaction, e, d, x, p, v) sorted
              ]
            ]
      ]
    ]
  ]

  pub delete_object_instance-QueuesSorted :
      (instance' : Option (List ℕ)) (tag : List ℕ)
      → QueuesSorted f
          (delete_object_instance node ctx federation instance' tag).federation.federates
  unfolding delete_object_instance without_instance
  delete_object_instance-QueuesSorted instance' tag = elim (Option-cases ctx.membership) [
    | inl e ↦ rw (delete_object_instance, e) sorted
    | inr (m, e) ↦ elim (Option-cases (decoded decode_object_instance instance')) [
      | inl d ↦ rw (delete_object_instance, e, d) sorted
      | inr (h, d) ↦ elim (Result-cases (deletable m (get h federation.object_instances))) [
        | inr (g', g) ↦ rw (delete_object_instance, e, d, g) sorted
        | inl (inst, g) ↦
            rw (delete_object_instance, e, d, g)
              (forget-QueuesSorted f m.federate_handle h federation.federates sorted)
      ]
    ]
  ]
