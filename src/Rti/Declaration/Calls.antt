-- ===== src/Rti/Declaration/Calls.antt =====
-- crates/hla-rti/src/dispatch/mod.rs: the calls of declaration management, and the agreement of the
-- members' own records with the matrix.
use hla4_rs.Prelude.{ℕ, ◌≡◌, refl, List, true, Option, some}
use hla4_rs.Prelude.Eq.{nat_eq, pair_eq}
use hla4_rs.Rti.State.{Federation, SessionContext, Membership, Node}
use hla4_rs.Rti.Subscriptions.Invariant.{subscribed}
use hla4_rs.Rti.Handles.{decoded, decode_object_class}
use hla4_rs.Rti.Declaration.Dispatch.{
  DeclarationCall, unpublish_class, unsubscribe_class, publish_attributes, unpublish_attributes,
  subscribe_attributes, unsubscribe_attributes, publish_interaction, unpublish_interaction,
  subscribe_interaction, unsubscribe_interaction, dispatch_declaration,
}
use hla4_rs.Rti.Declaration.Agreement.{Agrees}
use hla4_rs.Rti.Declaration.Declared.{
  Declared-Agrees, publish_object_class_attributes-Declared,
  unpublish_object_class_attributes-Declared, publish_interaction_class-Declared,
  unpublish_interaction_class-Declared, subscribe_object_class_attributes_inner-Declared,
  unsubscribe_object_class_attributes_inner-Declared, subscribe_interaction_class_inner-Declared,
  unsubscribe_interaction_class_inner-Declared, unpublish_object_class-Declared,
  unsubscribe_object_class-Agrees,
}

module _ {T : Type 0} (node : Node) (ctx : SessionContext) (federation : Federation T) where
  -- A call to publish, unpublish, subscribe to or unsubscribe from attributes of an object class or
  -- an interaction class, or to unpublish a whole object class, with any arguments and whether it
  -- succeeds or not, keeps each member's own record of its subscriptions in agreement with the
  -- matrix: the same attributes of each class and the same interaction classes. So does a call to
  -- unsubscribe from a whole object class while no federate but the caller is subscribed to it.
  pub dispatch_declaration-Agrees :
      (call : DeclarationCall)
      → Agrees federation
      → ((class : Option (List ℕ)) (m : Membership) (c a f : ℕ)
          → call ≡ unsubscribe_class class
          → ctx.membership ≡ some m
          → decoded decode_object_class class ≡ some c
          → subscribed federation.subscriptions c a f ≡ true
          → f ≡ m.federate_handle)
      → Agrees (dispatch_declaration node ctx federation call).federation
  unfolding dispatch_declaration
  dispatch_declaration-Agrees (publish_attributes class attrs) agrees alone =
      Declared-Agrees agrees (publish_object_class_attributes-Declared ctx federation class attrs)
  dispatch_declaration-Agrees (unpublish_attributes class attrs) agrees alone =
      Declared-Agrees agrees (unpublish_object_class_attributes-Declared ctx federation class attrs)
  dispatch_declaration-Agrees (subscribe_attributes class attrs) agrees alone =
      Declared-Agrees agrees
        (subscribe_object_class_attributes_inner-Declared (some node) ctx federation class attrs)
  dispatch_declaration-Agrees (unsubscribe_attributes class attrs) agrees alone =
      Declared-Agrees agrees
        (unsubscribe_object_class_attributes_inner-Declared (some node) ctx federation class attrs)
  dispatch_declaration-Agrees (publish_interaction class) agrees alone =
      Declared-Agrees agrees (publish_interaction_class-Declared ctx federation class)
  dispatch_declaration-Agrees (unpublish_interaction class) agrees alone =
      Declared-Agrees agrees (unpublish_interaction_class-Declared ctx federation class)
  dispatch_declaration-Agrees (subscribe_interaction class) agrees alone =
      Declared-Agrees agrees
        (subscribe_interaction_class_inner-Declared (some node) ctx federation class)
  dispatch_declaration-Agrees (unsubscribe_interaction class) agrees alone =
      Declared-Agrees agrees
        (unsubscribe_interaction_class_inner-Declared (some node) ctx federation class)
  dispatch_declaration-Agrees (unpublish_class class) agrees alone =
      Declared-Agrees agrees (unpublish_object_class-Declared ctx federation class)
  dispatch_declaration-Agrees (unsubscribe_class class) agrees alone =
      unsubscribe_object_class-Agrees ctx federation class agrees
        (λ m c a f. alone class m c a f refl)
