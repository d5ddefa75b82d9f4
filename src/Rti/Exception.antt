-- ===== src/Rti/Exception.antt =====
-- crates/hla-rti/src/exception.rs: the exception kinds and their names on the wire.
use Prim.Native.String.{String}

pub data HlaException : Type 0 where
  attribute_not_defined attribute_not_owned could_not_open_fdd : HlaException
  delete_privilege_not_held error_reading_fdd federate_already_execution_member : HlaException
  federate_name_already_in_use federate_not_execution_member : HlaException
  federate_not_in_save_initiated federate_not_in_save_set : HlaException
  federate_not_in_synchronization_group federates_currently_joined : HlaException
  federation_execution_already_exists federation_execution_does_not_exist : HlaException
  interaction_class_not_defined interaction_class_not_published : HlaException
  interaction_parameter_not_defined in_time_advancing_state invalid_attribute_handle : HlaException
  invalid_dimension invalid_dimension_handle invalid_federate_handle : HlaException
  invalid_interaction_class_handle invalid_logical_time invalid_lookahead : HlaException
  invalid_object_class_handle invalid_object_instance_handle invalid_order_name : HlaException
  invalid_order_type invalid_parameter_handle invalid_range_bound invalid_region : HlaException
  invalid_resign_action invalid_restore_label invalid_save_label : HlaException
  invalid_synchronization_point_label invalid_transportation_name : HlaException
  invalid_transportation_type_handle logical_time_already_passed name_not_found : HlaException
  object_class_not_defined object_class_not_published object_instance_name_in_use : HlaException
  object_instance_not_known region_not_created_by_this_federate restore_in_progress : HlaException
  restore_not_in_progress rti_internal_error save_in_progress save_not_in_progress : HlaException
  synchronization_point_label_not_announced time_constrained_already_enabled : HlaException
  time_constrained_is_not_enabled time_regulation_already_enabled : HlaException
  time_regulation_is_not_enabled : HlaException

unfoldable pub name : HlaException → String
name attribute_not_defined = "AttributeNotDefined"
name attribute_not_owned = "AttributeNotOwned"
name could_not_open_fdd = "CouldNotOpenFDD"
name delete_privilege_not_held = "DeletePrivilegeNotHeld"
name error_reading_fdd = "ErrorReadingFDD"
name federate_already_execution_member = "FederateAlreadyExecutionMember"
name federate_name_already_in_use = "FederateNameAlreadyInUse"
name federate_not_execution_member = "FederateNotExecutionMember"
name federate_not_in_save_initiated = "FederateNotInSaveInitiated"
name federate_not_in_save_set = "FederateNotInSaveSet"
name federate_not_in_synchronization_group = "FederateNotInSynchronizationGroup"
name federates_currently_joined = "FederatesCurrentlyJoined"
name federation_execution_already_exists = "FederationExecutionAlreadyExists"
name federation_execution_does_not_exist = "FederationExecutionDoesNotExist"
name interaction_class_not_defined = "InteractionClassNotDefined"
name interaction_class_not_published = "InteractionClassNotPublished"
name interaction_parameter_not_defined = "InteractionParameterNotDefined"
name in_time_advancing_state = "InTimeAdvancingState"
name invalid_attribute_handle = "InvalidAttributeHandle"
name invalid_dimension = "InvalidDimension"
name invalid_dimension_handle = "InvalidDimensionHandle"
name invalid_federate_handle = "InvalidFederateHandle"
name invalid_interaction_class_handle = "InvalidInteractionClassHandle"
name invalid_logical_time = "InvalidLogicalTime"
name invalid_lookahead = "InvalidLookahead"
name invalid_object_class_handle = "InvalidObjectClassHandle"
name invalid_object_instance_handle = "InvalidObjectInstanceHandle"
name invalid_order_name = "InvalidOrderName"
name invalid_order_type = "InvalidOrderType"
name invalid_parameter_handle = "InvalidParameterHandle"
name invalid_range_bound = "InvalidRangeBound"
name invalid_region = "InvalidRegion"
name invalid_resign_action = "InvalidResignAction"
name invalid_restore_label = "InvalidRestoreLabel"
name invalid_save_label = "InvalidSaveLabel"
name invalid_synchronization_point_label = "InvalidSynchronizationPointLabel"
name invalid_transportation_name = "InvalidTransportationName"
name invalid_transportation_type_handle = "InvalidTransportationTypeHandle"
name logical_time_already_passed = "LogicalTimeAlreadyPassed"
name name_not_found = "NameNotFound"
name object_class_not_defined = "ObjectClassNotDefined"
name object_class_not_published = "ObjectClassNotPublished"
name object_instance_name_in_use = "ObjectInstanceNameInUse"
name object_instance_not_known = "ObjectInstanceNotKnown"
name region_not_created_by_this_federate = "RegionNotCreatedByThisFederate"
name restore_in_progress = "RestoreInProgress"
name restore_not_in_progress = "RestoreNotInProgress"
name rti_internal_error = "RTIinternalError"
name save_in_progress = "SaveInProgress"
name save_not_in_progress = "SaveNotInProgress"
name synchronization_point_label_not_announced = "SynchronizationPointLabelNotAnnounced"
name time_constrained_already_enabled = "TimeConstrainedAlreadyEnabled"
name time_constrained_is_not_enabled = "TimeConstrainedIsNotEnabled"
name time_regulation_already_enabled = "TimeRegulationAlreadyEnabled"
name time_regulation_is_not_enabled = "TimeRegulationIsNotEnabled"
