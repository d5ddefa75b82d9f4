-- ===== src/Rti/Declaration.antt =====
-- crates/hla-rti/src/dispatch/declaration.rs: publication and subscription of object classes and
-- interaction classes. The node is absent where no advisory is sent.
use hla4_rs.Prelude.{
  ℕ, List, [], ◌∷◌, ◌++◌, Bool, true, false, not, ◌&&◌, Option, none, some, Result, ok, err, ◌==◌,
  if◌then◌else◌, map,
}
use hla4_rs.Prelude.Eq.{Eq, nat_eq}
use hla4_rs.Prelude.Map.{Map, get, insert, remove, modify, contains_key}
use hla4_rs.Prelude.Sets.{contains, set_insert, set_remove, set_extend}
use hla4_rs.Omt.Fom.{object_class_def, interaction_class_def}
use hla4_rs.Rti.Exception.{
  HlaException, federate_not_execution_member, invalid_object_class_handle,
  object_class_not_defined, invalid_interaction_class_handle, interaction_class_not_defined,
}
use hla4_rs.Rti.Callback.{
  Callback, start_registration_for_object_class, stop_registration_for_object_class,
  turn_interactions_on, turn_interactions_off,
}
use hla4_rs.Rti.Handles.{decoded, decode_object_class, decode_interaction_class, decode_handle_set}
use hla4_rs.Rti.Subscriptions.{
  SubscriptionMatrix, or_else, is_empty, subscribe_attribute, unsubscribe_attribute,
  class_has_subscribers,
}
use hla4_rs.Rti.State.{
  Federation, FederateSession, PubSubState, Node, SessionContext, Membership,
  publish_object_class_attributes_response, unpublish_object_class_attributes_response,
  subscribe_object_class_attributes_response, unsubscribe_object_class_attributes_response,
  publish_interaction_class_response, unpublish_interaction_class_response,
  subscribe_interaction_class_response, unsubscribe_interaction_class_response,
}
use hla4_rs.Rti.Routing.{OutboundCallback, live_connections, fan_out}
use hla4_rs.Rti.Handler.{Outcome, exception_variant}
pub mod Handlers
pub mod Classes
pub mod Dispatch
pub mod Tables
pub mod Agreement
pub mod Declared
pub mod Calls
mod Examples

-- `map.entry(class).or_default().extend(set)`
unfoldable pub extend_entry : ℕ → List ℕ → Map ℕ (List ℕ) → Map ℕ (List ℕ)
unfolding get insert set_extend
extend_entry class set m = insert class (set_extend set (or_else [] (get class m))) m

unfoldable pub remove_all : List ℕ → List ℕ → List ℕ
unfolding set_remove
remove_all [] existing = existing
remove_all (a ∷ set) existing = remove_all set (set_remove a existing)

-- The attributes leave the entry of the class, and an entry that is left empty goes.
unfoldable pub remove_entry : ℕ → List ℕ → Map ℕ (List ℕ) → Map ℕ (List ℕ)
unfolding get insert remove remove_all
remove_entry class set m = elim (get class m) [
  | none ↦ m
  | some existing ↦
      let rest = remove_all set existing in
      if is_empty rest then remove class m else insert class rest m
]

unfoldable pub subscribe_all : ℕ → ℕ → List ℕ → SubscriptionMatrix → SubscriptionMatrix
unfolding subscribe_attribute
subscribe_all class fh [] subs = subs
subscribe_all class fh (attr ∷ set) subs =
    subscribe_all class fh set (subscribe_attribute subs class attr fh).0

unfoldable pub unsubscribe_all : ℕ → ℕ → List ℕ → SubscriptionMatrix → SubscriptionMatrix
unfolding unsubscribe_attribute
unsubscribe_all class fh [] subs = subs
unsubscribe_all class fh (attr ∷ set) subs =
    unsubscribe_all class fh set (unsubscribe_attribute subs class attr fh).0

unfoldable pub interaction_has_subscribers : SubscriptionMatrix → ℕ → Bool
unfolding contains_key
interaction_has_subscribers subs class = contains_key class subs.by_interaction

unfoldable pub add_interaction : ℕ → ℕ → SubscriptionMatrix → SubscriptionMatrix
unfolding get insert set_insert
add_interaction class fh subs = record subs {
  by_interaction =
      insert class (set_insert fh (or_else [] (get class subs.by_interaction))) subs.by_interaction;
}

unfoldable pub drop_interaction : ℕ → ℕ → SubscriptionMatrix → SubscriptionMatrix
unfolding get insert remove set_remove
drop_interaction class fh subs = elim (get class subs.by_interaction) [
  | none ↦ subs
  | some set ↦
      let rest = set_remove fh set in
      record subs {
        by_interaction =
            if is_empty rest
            then remove class subs.by_interaction
            else insert class rest subs.by_interaction;
      }
]

module _ {T : Type 0} where
  -- The write of one federate's declarations, if it is there.
  unfoldable pub update_pub_sub : ℕ → (PubSubState → PubSubState) → Federation T → Federation T
  unfolding modify
  update_pub_sub fh g federation = record federation {
    federates = modify fh (λ fs. record fs { pub_sub = g fs.pub_sub }) federation.federates;
  }

  -- The handles of the federates that a test selects.
  unfoldable pub targets : (FederateSession T → Bool) → Map ℕ (FederateSession T) → List ℕ
  unfolding set_insert
  targets test [] = []
  targets test ((fh, fs) ∷ federates) =
      let rest = targets test federates in if test fs then set_insert fs.handle rest else rest

  unfoldable pub emit :
      Node → Federation T → (FederateSession T → Bool) → Callback → List OutboundCallback
  unfolding targets live_connections fan_out
  emit node federation test callback =
      fan_out (live_connections node federation (targets test federation.federates)) callback

  unfoldable pub emit_start_registration : Node → Federation T → ℕ → ℕ → List OutboundCallback
  unfolding emit contains_key
  emit_start_registration node federation class exclude =
      emit node federation
        (λ fs.
          not (fs.handle == exclude)
          && (fs.switches.object_class_relevance_advisory
              && contains_key class fs.pub_sub.published_attrs))
        (start_registration_for_object_class class)

  unfoldable pub emit_stop_registration : Node → Federation T → ℕ → List OutboundCallback
  unfolding emit contains_key
  emit_stop_registration node federation class =
      emit node federation
        (λ fs.
          fs.switches.object_class_relevance_advisory
          && contains_key class fs.pub_sub.published_attrs)
        (stop_registration_for_object_class class)

  unfoldable pub emit_turn_interactions_on : Node → Federation T → ℕ → ℕ → List OutboundCallback
  unfolding emit contains
  emit_turn_interactions_on node federation class exclude =
      emit node federation
        (λ fs.
          not (fs.handle == exclude)
          && (fs.switches.interaction_relevance_advisory
              && contains class fs.pub_sub.published_interactions))
        (turn_interactions_on class)

  unfoldable pub emit_turn_interactions_off : Node → Federation T → ℕ → List OutboundCallback
  unfolding emit contains
  emit_turn_interactions_off node federation class =
      emit node federation
        (λ fs.
          fs.switches.interaction_relevance_advisory
          && contains class fs.pub_sub.published_interactions)
        (turn_interactions_off class)

-- What an advisory adds, where there is a node and the class has changed its state.
abbrev pub advise : Option Node → Bool → (Node → List OutboundCallback) → List OutboundCallback
advise none changed send = []
advise (some node) changed send = if changed then send node else []
