-- ===== src/Rti/Declaration/Dispatch.antt =====
-- crates/hla-rti/src/dispatch/mod.rs: the arms of the table of calls for declaration management.
use hla4_rs.Prelude.{ℕ, List, Option, some}
use hla4_rs.Rti.State.{Federation, Node, SessionContext}
use hla4_rs.Rti.Handler.{Outcome}
use hla4_rs.Rti.Declaration.Handlers.{
  publish_object_class_attributes, unpublish_object_class_attributes, publish_interaction_class,
  unpublish_interaction_class, subscribe_object_class_attributes_inner,
  unsubscribe_object_class_attributes_inner, subscribe_interaction_class_inner,
  unsubscribe_interaction_class_inner,
}
use hla4_rs.Rti.Declaration.Classes.{unpublish_object_class, unsubscribe_object_class}

-- The calls under Declaration Management, and the two on a whole class, whose arms stand further
-- down in the table.
pub data DeclarationCall : Type 0 where
  publish_attributes unpublish_attributes subscribe_attributes unsubscribe_attributes :
      Option (List ℕ) → Option (List (List ℕ)) → DeclarationCall
  publish_interaction unpublish_interaction subscribe_interaction unsubscribe_interaction :
      Option (List ℕ) → DeclarationCall
  unpublish_class unsubscribe_class : Option (List ℕ) → DeclarationCall

unfoldable pub dispatch_declaration :
    {T : Type 0} → Node → SessionContext → Federation T → DeclarationCall → Outcome T
unfolding publish_object_class_attributes unpublish_object_class_attributes
    publish_interaction_class unpublish_interaction_class subscribe_object_class_attributes_inner
    unsubscribe_object_class_attributes_inner subscribe_interaction_class_inner
    unsubscribe_interaction_class_inner unpublish_object_class unsubscribe_object_class
dispatch_declaration node ctx federation (publish_attributes class attrs) =
    publish_object_class_attributes ctx federation class attrs
dispatch_declaration node ctx federation (unpublish_attributes class attrs) =
    unpublish_object_class_attributes ctx federation class attrs
dispatch_declaration node ctx federation (subscribe_attributes class attrs) =
    subscribe_object_class_attributes_inner (some node) ctx federation class attrs
dispatch_declaration node ctx federation (unsubscribe_attributes class attrs) =
    unsubscribe_object_class_attributes_inner (some node) ctx federation class attrs
dispatch_declaration node ctx federation (publish_interaction class) =
    publish_interaction_class ctx federation class
dispatch_declaration node ctx federation (unpublish_interaction class) =
    unpublish_interaction_class ctx federation class
dispatch_declaration node ctx federation (subscribe_interaction class) =
    subscribe_interaction_class_inner (some node) ctx federation class
dispatch_declaration node ctx federation (unsubscribe_interaction class) =
    unsubscribe_interaction_class_inner (some node) ctx federation class
dispatch_declaration node ctx federation (unpublish_class class) =
    unpublish_object_class ctx federation class
dispatch_declaration node ctx federation (unsubscribe_class class) =
    unsubscribe_object_class ctx federation class
