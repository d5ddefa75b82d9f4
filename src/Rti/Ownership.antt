-- ===== src/Rti/Ownership.antt =====
-- crates/hla-rti/src/dispatch/ownership.rs: who owns which attribute of an object instance.
use hla4_rs.Prelude.{
  ℕ, List, [], ◌∷◌, ◌++◌, Bool, true, false, Option, none, some, Result, ok, err, ◌==◌,
  if◌then◌else◌,
}
use hla4_rs.Prelude.Eq.{Eq, nat_eq, option_eq}
use hla4_rs.Prelude.Map.{Map, get, insert, remove}
use hla4_rs.Rti.Exception.{
  federate_not_execution_member, object_instance_not_known, invalid_attribute_handle,
}
use hla4_rs.Rti.Callback.{
  Callback, inform_attribute_ownership, attribute_is_not_owned,
  attribute_ownership_acquisition_notification, attribute_ownership_unavailable,
}
use hla4_rs.Rti.Handles.{decoded, decode_object_instance, decode_attribute, decode_handle_set}
use hla4_rs.Rti.Subscriptions.{or_else, is_empty}
use hla4_rs.Rti.State.{
  Federation, ObjectInstance, Node, SessionContext, is_attribute_owned_by_federate_response,
  query_attribute_ownership_response, attribute_ownership_acquisition_if_available_response,
  unconditional_attribute_ownership_divestiture_response,
  attribute_ownership_release_denied_response,
  cancel_negotiated_attribute_ownership_divestiture_response,
  cancel_attribute_ownership_acquisition_response, confirm_divestiture_response,
}
use hla4_rs.Rti.Declaration.Handlers.{done}
use hla4_rs.Rti.Routing.{OutboundCallback, live_connections, fan_out, subscribers_for_attributes}
use hla4_rs.Rti.Handler.{Outcome, exception_variant, single}
pub mod Owners
pub mod Transfers
pub mod Calls
mod Examples

-- What a loop over the attributes leaves: the owners, the attributes that it changed and the rest.
pub record Walk : Type 0 where
  pub owners : Map ℕ ℕ
  pub changed : List ℕ
  pub others : List ℕ

-- `owner == Some(fh)`
abbrev pub owns : ℕ → Option ℕ → Bool
owns fh none = false
owns fh (some o) = o == fh

-- Each attribute without an owner is given to the federate.
unfoldable pub secure : ℕ → List ℕ → Map ℕ ℕ → Walk
unfolding get insert
secure fh [] owners = record { owners = owners; changed = []; others = [] }
secure fh (a ∷ attrs) owners = elim (get a owners) [
  | some o ↦ let rest = secure fh attrs owners in record rest { others = a ∷ rest.others }
  | none ↦
      let rest = secure fh attrs (insert a fh owners) in record rest { changed = a ∷ rest.changed }
]

-- Each attribute that the federate owns loses its owner.
unfoldable pub divest : ℕ → List ℕ → Map ℕ ℕ → Walk
unfolding get remove
divest fh [] owners = record { owners = owners; changed = []; others = [] }
divest fh (a ∷ attrs) owners = elim (owns fh (get a owners)) [
  | true ↦
      let rest = divest fh attrs (remove a owners) in record rest { changed = a ∷ rest.changed }
  | false ↦ let rest = divest fh attrs owners in record rest { others = a ∷ rest.others }
]

-- The attributes by their owner.
unfoldable pub owner_groups : List ℕ → Map ℕ ℕ → Map (Option ℕ) (List ℕ) → Map (Option ℕ) (List ℕ)
unfolding get insert
owner_groups [] owners groups = groups
owner_groups (a ∷ attrs) owners groups =
    let owner = get a owners in
    owner_groups attrs owners (insert owner (or_else [] (get owner groups) ++ (a ∷ [])) groups)

abbrev pub ownership_callback : ℕ → Option ℕ → List ℕ → Callback
ownership_callback instance' (some o) attrs = inform_attribute_ownership instance' attrs o
ownership_callback instance' none attrs = attribute_is_not_owned instance' attrs

module _ {T : Type 0} where
  -- The write of one instance's owners.
  unfoldable pub set_owners : ℕ → ObjectInstance → Map ℕ ℕ → Federation T → Federation T
  unfolding insert
  set_owners instance' inst owners federation = record federation {
    object_instances =
        insert instance' (record inst { attribute_owners = owners }) federation.object_instances;
  }

abbrev pub unless_empty : List ℕ → List OutboundCallback → List OutboundCallback
unless_empty [] callbacks = []
unless_empty (a ∷ attrs) callbacks = callbacks

module _ {T : Type 0} (ctx : SessionContext) (federation : Federation T) where
  unfoldable pub is_attribute_owned_by_federate : Option (List ℕ) → Option (List ℕ) → Outcome T
  unfolding decode_object_instance decode_attribute get
  is_attribute_owned_by_federate instance' attribute = elim ctx.membership [
    | none ↦ exception_variant federation federate_not_execution_member
    | some m ↦ elim (decoded decode_object_instance instance') [
      | none ↦ exception_variant federation object_instance_not_known
      | some h ↦ elim (decoded decode_attribute attribute) [
        | none ↦ exception_variant federation invalid_attribute_handle
        | some a ↦ elim (get h federation.object_instances) [
          | none ↦ exception_variant federation object_instance_not_known
          | some inst ↦ record {
            federation = federation;
            callbacks = [];
            response =
                is_attribute_owned_by_federate_response
                  (owns m.federate_handle (get a inst.attribute_owners));
          }
        ]
      ]
    ]
  ]

module _ {T : Type 0} (node : Node) (ctx : SessionContext) (federation : Federation T) where
  -- The callbacks of one group after another.
  unfoldable pub inform_groups : ℕ → ℕ → Map (Option ℕ) (List ℕ) → List OutboundCallback
  unfolding live_connections fan_out
  inform_groups fh h [] = []
  inform_groups fh h ((owner, attrs) ∷ groups) =
      fan_out (live_connections node federation (single fh)) (ownership_callback h owner attrs)
      ++ inform_groups fh h groups

  unfoldable pub query_attribute_ownership : Option (List ℕ) → Option (List (List ℕ)) → Outcome T
  unfolding decode_object_instance decode_handle_set get inform_groups owner_groups
  query_attribute_ownership instance' attrs = elim ctx.membership [
    | none ↦ exception_variant federation federate_not_execution_member
    | some m ↦ elim (decoded decode_object_instance instance') [
      | none ↦ exception_variant federation object_instance_not_known
      | some h ↦ elim (decode_handle_set attrs) [
        | err e ↦ exception_variant federation e
        | ok set ↦ elim (get h federation.object_instances) [
          | none ↦ exception_variant federation object_instance_not_known
          | some inst ↦ record {
            federation = federation;
            callbacks =
                inform_groups m.federate_handle h (owner_groups set inst.attribute_owners []);
            response = query_attribute_ownership_response;
          }
        ]
      ]
    ]
  ]

  unfoldable pub attribute_ownership_acquisition_if_available :
      Option (List ℕ) → Option (List (List ℕ)) → List ℕ → Outcome T
  unfolding decode_object_instance decode_handle_set get secure set_owners live_connections fan_out
  attribute_ownership_acquisition_if_available instance' attrs tag = elim ctx.membership [
    | none ↦ exception_variant federation federate_not_execution_member
    | some m ↦ elim (decoded decode_object_instance instance') [
      | none ↦ exception_variant federation object_instance_not_known
      | some h ↦ elim (decode_handle_set attrs) [
        | err e ↦ exception_variant federation e
        | ok set ↦ elim (get h federation.object_instances) [
          | none ↦ exception_variant federation object_instance_not_known
          | some inst ↦
              let walk = secure m.federate_handle set inst.attribute_owners in
              let after = set_owners h inst walk.owners federation in
              let self_conn = live_connections node after (single m.federate_handle) in
              record {
                federation = after;
                callbacks =
                    unless_empty walk.changed (
                      fan_out self_conn
                        (attribute_ownership_acquisition_notification h walk.changed tag))
                    ++ unless_empty walk.others
                        (fan_out self_conn (attribute_ownership_unavailable h walk.others tag));
                response = attribute_ownership_acquisition_if_available_response;
              }
        ]
      ]
    ]
  ]

  unfoldable pub unconditional_attribute_ownership_divestiture :
      Option (List ℕ) → Option (List (List ℕ)) → List ℕ → Outcome T
  unfolding decode_object_instance decode_handle_set get divest set_owners live_connections fan_out
      subscribers_for_attributes
  unconditional_attribute_ownership_divestiture instance' attrs tag = elim ctx.membership [
    | none ↦ exception_variant federation federate_not_execution_member
    | some m ↦ elim (decoded decode_object_instance instance') [
      | none ↦ exception_variant federation object_instance_not_known
      | some h ↦ elim (decode_handle_set attrs) [
        | err e ↦ exception_variant federation e
        | ok set ↦ elim (get h federation.object_instances) [
          | none ↦ exception_variant federation object_instance_not_known
          | some inst ↦
              let walk = divest m.federate_handle set inst.attribute_owners in
              let after = set_owners h inst walk.owners federation in
              let subscribers = subscribers_for_attributes after inst.class walk.changed none in
              record {
                federation = after;
                callbacks = unless_empty walk.changed (
                    fan_out (live_connections node after subscribers)
                      (attribute_is_not_owned h walk.changed));
                response = unconditional_attribute_ownership_divestiture_response;
              }
        ]
      ]
    ]
  ]

-- The calls of the service group, in the order of their arms.
pub data OwnershipCall : Type 0 where
  is_owned : Option (List ℕ) → Option (List ℕ) → OwnershipCall
  query : Option (List ℕ) → Option (List (List ℕ)) → OwnershipCall
  release acquire_negotiated release_negotiated :
      Option (List ℕ) → Option (List (List ℕ)) → List ℕ → OwnershipCall
  deny_release : OwnershipCall
  release_if_wanted : Option (List ℕ) → Option (List (List ℕ)) → List ℕ → OwnershipCall
  cancel_release cancel_acquisition confirm_release : OwnershipCall
  acquire : Option (List ℕ) → Option (List (List ℕ)) → List ℕ → OwnershipCall

unfoldable pub dispatch_ownership :
    {T : Type 0} → Node → SessionContext → Federation T → OwnershipCall → Outcome T
unfolding is_attribute_owned_by_federate query_attribute_ownership
    attribute_ownership_acquisition_if_available unconditional_attribute_ownership_divestiture
dispatch_ownership node ctx federation (is_owned instance' attribute) =
    is_attribute_owned_by_federate ctx federation instance' attribute
dispatch_ownership node ctx federation (query instance' attrs) =
    query_attribute_ownership node ctx federation instance' attrs
dispatch_ownership node ctx federation (release instance' attrs tag) =
    unconditional_attribute_ownership_divestiture node ctx federation instance' attrs tag
dispatch_ownership node ctx federation (acquire_negotiated instance' attrs tag) =
    attribute_ownership_acquisition_if_available node ctx federation instance' attrs tag
dispatch_ownership node ctx federation (release_negotiated instance' attrs tag) =
    unconditional_attribute_ownership_divestiture node ctx federation instance' attrs tag
dispatch_ownership node ctx federation deny_release =
    done federation attribute_ownership_release_denied_response
dispatch_ownership node ctx federation (release_if_wanted instance' attrs tag) =
    unconditional_attribute_ownership_divestiture node ctx federation instance' attrs tag
dispatch_ownership node ctx federation cancel_release =
    done federation cancel_negotiated_attribute_ownership_divestiture_response
dispatch_ownership node ctx federation cancel_acquisition =
    done federation cancel_attribute_ownership_acquisition_response
dispatch_ownership node ctx federation confirm_release =
    done federation confirm_divestiture_response
dispatch_ownership node ctx federation (acquire instance' attrs tag) =
    attribute_ownership_acquisition_if_available node ctx federation instance' attrs tag
