-- ===== src/Rti/Declaration/Handlers.antt =====
-- crates/hla-rti/src/dispatch/declaration.rs: the handlers.
use hla4_rs.Prelude.{ℕ, List, [], not, ◌&&◌, Option, none, some, ok, err}
use hla4_rs.Prelude.Eq.{nat_eq}
use hla4_rs.Prelude.Sets.{set_insert, set_remove}
use hla4_rs.Omt.Fom.{object_class_def, interaction_class_def}
use hla4_rs.Rti.Exception.{
  federate_not_execution_member, invalid_object_class_handle, object_class_not_defined,
  invalid_interaction_class_handle, interaction_class_not_defined,
}
use hla4_rs.Rti.Handles.{decoded, decode_object_class, decode_interaction_class, decode_handle_set}
use hla4_rs.Rti.Subscriptions.{class_has_subscribers}
use hla4_rs.Rti.State.{
  Resp, Federation, Node, SessionContext, publish_object_class_attributes_response,
  unpublish_object_class_attributes_response, subscribe_object_class_attributes_response,
  unsubscribe_object_class_attributes_response, publish_interaction_class_response,
  unpublish_interaction_class_response, subscribe_interaction_class_response,
  unsubscribe_interaction_class_response,
}
use hla4_rs.Rti.Handler.{Outcome, exception_variant}
use hla4_rs.Rti.Declaration.{
  extend_entry, remove_entry, subscribe_all, unsubscribe_all, interaction_has_subscribers,
  add_interaction, drop_interaction, update_pub_sub, emit_start_registration,
  emit_stop_registration, emit_turn_interactions_on, emit_turn_interactions_off, advise,
}

abbrev pub done : {T : Type 0} → Federation T → Resp → Outcome T
done federation response = record { federation = federation; callbacks = []; response = response }

module _ {T : Type 0} (ctx : SessionContext) (federation : Federation T) where
  unfoldable pub publish_object_class_attributes :
      Option (List ℕ) → Option (List (List ℕ)) → Outcome T
  unfolding decode_object_class decode_handle_set object_class_def update_pub_sub extend_entry
  publish_object_class_attributes class attrs = elim ctx.membership [
    | none ↦ exception_variant federation federate_not_execution_member
    | some m ↦ elim (decoded decode_object_class class) [
      | none ↦ exception_variant federation invalid_object_class_handle
      | some class' ↦ elim (object_class_def federation.fom class') [
        | none ↦ exception_variant federation object_class_not_defined
        | some _ ↦ elim (decode_handle_set attrs) [
          | err e ↦ exception_variant federation e
          | ok set ↦
              done
                (update_pub_sub m.federate_handle
                  (λ ps. record ps { published_attrs = extend_entry class' set ps.published_attrs })
                  federation)
                publish_object_class_attributes_response
        ]
      ]
    ]
  ]

  unfoldable pub unpublish_object_class_attributes :
      Option (List ℕ) → Option (List (List ℕ)) → Outcome T
  unfolding decode_object_class decode_handle_set update_pub_sub remove_entry
  unpublish_object_class_attributes class attrs = elim ctx.membership [
    | none ↦ exception_variant federation federate_not_execution_member
    | some m ↦ elim (decoded decode_object_class class) [
      | none ↦ exception_variant federation invalid_object_class_handle
      | some class' ↦ elim (decode_handle_set attrs) [
        | err e ↦ exception_variant federation e
        | ok set ↦
            done
              (update_pub_sub m.federate_handle
                (λ ps. record ps { published_attrs = remove_entry class' set ps.published_attrs })
                federation)
              unpublish_object_class_attributes_response
      ]
    ]
  ]

  unfoldable pub publish_interaction_class : Option (List ℕ) → Outcome T
  unfolding decode_interaction_class interaction_class_def update_pub_sub set_insert
  publish_interaction_class class = elim ctx.membership [
    | none ↦ exception_variant federation federate_not_execution_member
    | some m ↦ elim (decoded decode_interaction_class class) [
      | none ↦ exception_variant federation invalid_interaction_class_handle
      | some class' ↦ elim (interaction_class_def federation.fom class') [
        | none ↦ exception_variant federation interaction_class_not_defined
        | some _ ↦
            done
              (update_pub_sub m.federate_handle
                (λ ps. record ps {
                  published_interactions = set_insert class' ps.published_interactions;
                })
                federation)
              publish_interaction_class_response
      ]
    ]
  ]

  unfoldable pub unpublish_interaction_class : Option (List ℕ) → Outcome T
  unfolding decode_interaction_class update_pub_sub set_remove
  unpublish_interaction_class class = elim ctx.membership [
    | none ↦ exception_variant federation federate_not_execution_member
    | some m ↦ elim (decoded decode_interaction_class class) [
      | none ↦ exception_variant federation invalid_interaction_class_handle
      | some class' ↦
          done
            (update_pub_sub m.federate_handle
              (λ ps. record ps {
                published_interactions = set_remove class' ps.published_interactions;
              })
              federation)
            unpublish_interaction_class_response
    ]
  ]

module _ {T : Type 0} (federation : Federation T) where
  -- The federation after a subscription of the federate, in its own record and in the matrix.
  unfoldable pub subscribed_attributes : ℕ → ℕ → List ℕ → Federation T
  unfolding update_pub_sub extend_entry subscribe_all
  subscribed_attributes fh class set =
      let noted =
        update_pub_sub fh
          (λ ps. record ps { subscribed_attrs = extend_entry class set ps.subscribed_attrs })
          federation in
      record noted { subscriptions = subscribe_all class fh set noted.subscriptions }

  unfoldable pub unsubscribed_attributes : ℕ → ℕ → List ℕ → Federation T
  unfolding update_pub_sub remove_entry unsubscribe_all
  unsubscribed_attributes fh class set =
      let noted =
        update_pub_sub fh
          (λ ps. record ps { subscribed_attrs = remove_entry class set ps.subscribed_attrs })
          federation in
      record noted { subscriptions = unsubscribe_all class fh set noted.subscriptions }

  unfoldable pub subscribed_interaction : ℕ → ℕ → Federation T
  unfolding update_pub_sub set_insert add_interaction
  subscribed_interaction fh class =
      let noted =
        update_pub_sub fh
          (λ ps. record ps {
            subscribed_interactions = set_insert class ps.subscribed_interactions;
          })
          federation in
      record noted { subscriptions = add_interaction class fh noted.subscriptions }

  unfoldable pub unsubscribed_interaction : ℕ → ℕ → Federation T
  unfolding update_pub_sub set_remove drop_interaction
  unsubscribed_interaction fh class =
      let noted =
        update_pub_sub fh
          (λ ps. record ps {
            subscribed_interactions = set_remove class ps.subscribed_interactions;
          })
          federation in
      record noted { subscriptions = drop_interaction class fh noted.subscriptions }

module _ {T : Type 0} (node : Option Node) (ctx : SessionContext) (federation : Federation T) where
  unfoldable pub subscribe_object_class_attributes_inner :
      Option (List ℕ) → Option (List (List ℕ)) → Outcome T
  unfolding decode_object_class decode_handle_set object_class_def subscribed_attributes
      class_has_subscribers emit_start_registration
  subscribe_object_class_attributes_inner class attrs = elim ctx.membership [
    | none ↦ exception_variant federation federate_not_execution_member
    | some m ↦ elim (decoded decode_object_class class) [
      | none ↦ exception_variant federation invalid_object_class_handle
      | some class' ↦ elim (object_class_def federation.fom class') [
        | none ↦ exception_variant federation object_class_not_defined
        | some _ ↦ elim (decode_handle_set attrs) [
          | err e ↦ exception_variant federation e
          | ok set ↦
              let after = subscribed_attributes federation m.federate_handle class' set in
              let was = class_has_subscribers federation.subscriptions class' in
              let now = class_has_subscribers after.subscriptions class' in
              record {
                federation = after;
                callbacks =
                    advise node (not was && now)
                      (λ node. emit_start_registration node after class' m.federate_handle);
                response = subscribe_object_class_attributes_response;
              }
        ]
      ]
    ]
  ]

  unfoldable pub unsubscribe_object_class_attributes_inner :
      Option (List ℕ) → Option (List (List ℕ)) → Outcome T
  unfolding decode_object_class decode_handle_set unsubscribed_attributes class_has_subscribers
      emit_stop_registration
  unsubscribe_object_class_attributes_inner class attrs = elim ctx.membership [
    | none ↦ exception_variant federation federate_not_execution_member
    | some m ↦ elim (decoded decode_object_class class) [
      | none ↦ exception_variant federation invalid_object_class_handle
      | some class' ↦ elim (decode_handle_set attrs) [
        | err e ↦ exception_variant federation e
        | ok set ↦
            let after = unsubscribed_attributes federation m.federate_handle class' set in
            let was = class_has_subscribers federation.subscriptions class' in
            let now = class_has_subscribers after.subscriptions class' in
            record {
              federation = after;
              callbacks =
                  advise node (was && not now) (λ node. emit_stop_registration node after class');
              response = unsubscribe_object_class_attributes_response;
            }
      ]
    ]
  ]

  unfoldable pub subscribe_interaction_class_inner : Option (List ℕ) → Outcome T
  unfolding decode_interaction_class interaction_class_def subscribed_interaction
      interaction_has_subscribers emit_turn_interactions_on
  subscribe_interaction_class_inner class = elim ctx.membership [
    | none ↦ exception_variant federation federate_not_execution_member
    | some m ↦ elim (decoded decode_interaction_class class) [
      | none ↦ exception_variant federation invalid_interaction_class_handle
      | some class' ↦ elim (interaction_class_def federation.fom class') [
        | none ↦ exception_variant federation interaction_class_not_defined
        | some _ ↦
            let after = subscribed_interaction federation m.federate_handle class' in
            let was = interaction_has_subscribers federation.subscriptions class' in
            let now = interaction_has_subscribers after.subscriptions class' in
            record {
              federation = after;
              callbacks =
                  advise node (not was && now)
                    (λ node. emit_turn_interactions_on node after class' m.federate_handle);
              response = subscribe_interaction_class_response;
            }
      ]
    ]
  ]

  unfoldable pub unsubscribe_interaction_class_inner : Option (List ℕ) → Outcome T
  unfolding decode_interaction_class unsubscribed_interaction interaction_has_subscribers
      emit_turn_interactions_off
  unsubscribe_interaction_class_inner class = elim ctx.membership [
    | none ↦ exception_variant federation federate_not_execution_member
    | some m ↦ elim (decoded decode_interaction_class class) [
      | none ↦ exception_variant federation invalid_interaction_class_handle
      | some class' ↦
          let after = unsubscribed_interaction federation m.federate_handle class' in
          let was = interaction_has_subscribers federation.subscriptions class' in
          let now = interaction_has_subscribers after.subscriptions class' in
          record {
            federation = after;
            callbacks =
                advise node (was && not now) (λ node. emit_turn_interactions_off node after class');
            response = unsubscribe_interaction_class_response;
          }
    ]
  ]
