-- ===== src/Rti/State.antt =====
-- crates/hla-rti/src/lib.rs and session.rs: the state of a federation, a session and the node.
-- `T` is the type of logical times, f64 in the program. Locks and atomics leave their contents.
use Prim.Native.String.{String}
use hla4_rs.Prelude.{ℕ, List, Bool, Option}
use hla4_rs.Prelude.Int.{ℤ}
use hla4_rs.Prelude.Map.{Map}
use hla4_rs.Omt.Fom.{MergedFom}
use hla4_rs.Rti.Exception.{HlaException}
use hla4_rs.Rti.Subscriptions.{SubscriptionMatrix}
use hla4_rs.Rti.Callback.{Callback}

pub record ObjectInstance : Type 0 where
  pub handle : ℕ
  pub class : ℕ
  pub name : String
  pub registrar : ℕ
  pub attribute_owners : Map ℕ ℕ
  pub attribute_regions : Map ℕ (List ℕ)

pub record PubSubState : Type 0 where
  pub published_attrs : Map ℕ (List ℕ)
  pub subscribed_attrs : Map ℕ (List ℕ)
  pub published_interactions : List ℕ
  pub subscribed_interactions : List ℕ
  pub discovered_instances : List ℕ
  pub subscribed_attrs_regions : Map (ℕ × ℕ) (List ℕ)
  pub subscribed_directed_interactions : Map ℕ (List ℕ)
  pub published_directed_interactions : Map ℕ (List ℕ)

pub data ResignAction : Type 0 where
  unconditionally_divest_attributes delete_objects : ResignAction
  cancel_pending_ownership_acquisitions delete_objects_then_divest : ResignAction
  cancel_then_delete_then_divest no_action : ResignAction

pub record Switches : Type 0 where
  pub object_class_relevance_advisory : Bool
  pub attribute_relevance_advisory : Bool
  pub attribute_scope_advisory : Bool
  pub interaction_relevance_advisory : Bool
  pub convey_region_designator_sets : Bool
  pub service_reporting : Bool
  pub exception_reporting : Bool
  pub send_service_reports_to_file : Bool
  pub auto_provide : Bool
  pub delay_subscription_evaluation : Bool
  pub advisories_use_known_class : Bool
  pub allow_relaxed_ddm : Bool
  pub non_regulated_grant : Bool
  pub automatic_resign_directive : ResignAction

pub record TsoMessage (T : Type 0) : Type 0 where
  pub time : T
  pub callback : Callback

pub record TimeState (T : Type 0) : Type 0 where
  pub is_regulating : Bool
  pub is_constrained : Bool
  pub current_time : T
  pub lookahead : T
  pub pending_advance : Option T

pub record FederateSession (T : Type 0) : Type 0 where
  pub handle : ℕ
  pub name : String
  pub federate_type : String
  pub session_id : ℕ
  pub pub_sub : PubSubState
  pub time : TimeState T
  pub switches : Switches
  pub tso_queue : List (TsoMessage T)

pub data SaveStatus : Type 0 where
  initiated begun_save save_complete save_not_complete : SaveStatus

pub record SaveOperation : Type 0 where
  pub label : String
  pub statuses : Map ℕ SaveStatus

pub record Region : Type 0 where
  pub handle : ℕ
  pub owner : ℕ
  pub committed : Map ℕ (ℕ × ℕ)
  pub staged : Map ℕ (ℕ × ℕ)

pub record SyncPoint : Type 0 where
  pub label : String
  pub tag : List ℕ
  pub participants : List ℕ
  pub achieved : List ℕ
  pub failed_to_sync : List ℕ

pub record Federation (T : Type 0) : Type 0 where
  pub name : String
  pub fom : MergedFom
  pub federates : Map ℕ (FederateSession T)
  pub object_instances : Map ℕ ObjectInstance
  pub subscriptions : SubscriptionMatrix
  pub sync_points : Map String SyncPoint
  pub regions : Map ℕ Region
  pub next_region_id : ℕ
  pub current_save : Option SaveOperation
  pub last_save_label : Option String
  pub next_object_id : ℕ
  pub next_federate_id : ℕ

pub record Membership : Type 0 where
  pub federate_handle : ℕ
  pub federate_name : String

pub record SessionContext : Type 0 where
  pub session_id : ℕ
  pub membership : Option Membership

pub record ConnectionHandle : Type 0 where
  pub session_id : ℕ
  pub next_outbound_seq : ℤ

pub record Node : Type 0 where
  pub connections : Map ℕ ConnectionHandle

-- The responses of the modelled handlers; the text beside an exception's kind is left out.
pub data Resp : Type 0 where
  exception_data : HlaException → Resp
  register_federation_synchronization_point_response : Resp
  synchronization_point_achieved_response : Resp
  request_federation_save_response federate_save_begun_response : Resp
  federate_save_complete_response federate_save_not_complete_response : Resp
  abort_federation_save_response : Resp
  enable_time_regulation_response disable_time_regulation_response : Resp
  enable_time_constrained_response disable_time_constrained_response : Resp
  time_advance_request_response modify_lookahead_response : Resp
  query_logical_time_response query_lookahead_response : List ℕ → Resp
  query_lits_response : Bool → List ℕ → Resp
  is_attribute_owned_by_federate_response : Bool → Resp
  query_attribute_ownership_response : Resp
  attribute_ownership_acquisition_if_available_response : Resp
  unconditional_attribute_ownership_divestiture_response : Resp
  attribute_ownership_release_denied_response : Resp
  cancel_negotiated_attribute_ownership_divestiture_response : Resp
  cancel_attribute_ownership_acquisition_response confirm_divestiture_response : Resp
  create_region_response : List ℕ → Resp
  commit_region_modifications_response delete_region_response : Resp
  get_range_bounds_response : ℕ → ℕ → Resp
  set_range_bounds_response : Resp
  publish_object_class_attributes_response unpublish_object_class_attributes_response : Resp
  subscribe_object_class_attributes_response unsubscribe_object_class_attributes_response : Resp
  unpublish_object_class_response unsubscribe_object_class_response : Resp
  publish_interaction_class_response unpublish_interaction_class_response : Resp
  subscribe_interaction_class_response unsubscribe_interaction_class_response : Resp
  create_federation_execution_response destroy_federation_execution_response : Resp
  join_federation_execution_response : ℕ → Resp
  resign_federation_execution_response : Resp
  register_object_instance_response : ℕ → Resp
  update_attribute_values_response send_interaction_response : Resp
  delete_object_instance_response local_delete_object_instance_response : Resp
  update_attribute_values_with_time_response send_interaction_with_time_response : Resp
  delete_object_instance_with_time_response : Resp
  get_object_class_handle_response get_attribute_handle_response : List ℕ → Resp
  get_interaction_class_handle_response get_parameter_handle_response : List ℕ → Resp
  get_object_class_name_response get_attribute_name_response : String → Resp
  get_interaction_class_name_response get_parameter_name_response : String → Resp
