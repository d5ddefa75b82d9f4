-- ===== src/Rti/SyncPoints.antt =====
-- crates/hla-rti/src/dispatch/sync_points.rs: registration and achievement of synchronization
-- points.
pub mod Waiting
pub mod Synchronized
mod Examples
use Prim.Native.String.{String}
use text.Mathlib.Text.{◌==◌ as str_eq}
use hla4_rs.Prelude.{
  ℕ, List, [], ◌∷◌, ◌++◌, Bool, true, false, Option, none, some, ◌==◌, if◌then◌else◌, length,
}
use hla4_rs.Prelude.Eq.{Eq, nat_eq, string_eq}
use hla4_rs.Prelude.Map.{Map, get, insert, remove, keys}
use hla4_rs.Prelude.Sets.{contains, set_insert}
use hla4_rs.Rti.Exception.{
  federate_not_execution_member, invalid_synchronization_point_label,
  synchronization_point_label_not_announced, federate_not_in_synchronization_group,
}
use hla4_rs.Rti.Callback.{
  synchronization_point_registration_succeeded, synchronization_point_registration_failed,
  announce_synchronization_point, federation_synchronized,
}
use hla4_rs.Rti.State.{
  Federation, FederateSession, SyncPoint, Node, SessionContext, Membership,
  register_federation_synchronization_point_response, synchronization_point_achieved_response,
}
use hla4_rs.Rti.Routing.{live_connections, fan_out}
use hla4_rs.Rti.Handler.{Outcome, exception_variant, single}

-- An explicit subset or all currently joined federates.
unfoldable pub participants_of : {T : Type 0} → Federation T → Option (List ℕ) → List ℕ
participants_of federation (some (fh ∷ subset)) = fh ∷ subset
participants_of federation (some []) = keys federation.federates
participants_of federation none = keys federation.federates

unfoldable pub new_point : String → List ℕ → List ℕ → SyncPoint
new_point label tag participants = record {
  label = label;
  tag = tag;
  participants = participants;
  achieved = [];
  failed_to_sync = [];
}

-- One federate's report on a point.
unfoldable pub report : ℕ → Bool → SyncPoint → SyncPoint
unfolding set_insert
report fh successfully sp = record sp {
  achieved = set_insert fh sp.achieved;
  failed_to_sync = if successfully then sp.failed_to_sync else set_insert fh sp.failed_to_sync;
}

unfoldable pub all_achieved : SyncPoint → Bool
all_achieved sp = length sp.achieved == length sp.participants

module _ {T : Type 0} (node : Node) (federation : Federation T) where
  -- The last report takes the point out and tells the participants.
  unfoldable pub after_report : String → SyncPoint → Outcome T
  unfolding all_achieved insert remove live_connections fan_out
  after_report label sp =
      if all_achieved sp
      then record {
        federation = record federation { sync_points = remove label federation.sync_points };
        callbacks =
            fan_out (live_connections node federation sp.participants)
              (federation_synchronized label sp.failed_to_sync);
        response = synchronization_point_achieved_response;
      }
      else record {
        federation = record federation { sync_points = insert label sp federation.sync_points };
        callbacks = [];
        response = synchronization_point_achieved_response;
      }

module _ {T : Type 0} (node : Node) (ctx : SessionContext) (federation : Federation T) where
  unfoldable pub register_synchronization_point : String → List ℕ → Option (List ℕ) → Outcome T
  unfolding participants_of new_point insert get live_connections fan_out
  register_synchronization_point label tag participant_subset = elim ctx.membership [
    | none ↦ exception_variant federation federate_not_execution_member
    | some m ↦
        if str_eq label ""
        then exception_variant federation invalid_synchronization_point_label
        else let participants = participants_of federation participant_subset in
          let registrant = live_connections node federation (single m.federate_handle) in
          elim (get label federation.sync_points) [
            | some _ ↦ record {
              federation = federation;
              callbacks = fan_out registrant (synchronization_point_registration_failed label 0);
              response = register_federation_synchronization_point_response;
            }
            | none ↦ record {
              federation = record federation {
                sync_points =
                    insert label (new_point label tag participants) federation.sync_points;
              };
              callbacks =
                  fan_out registrant (synchronization_point_registration_succeeded label)
                  ++ fan_out (live_connections node federation participants)
                      (announce_synchronization_point label tag);
              response = register_federation_synchronization_point_response;
            }
          ]
  ]

  unfoldable pub synchronization_point_achieved : String → Bool → Outcome T
  unfolding report after_report get contains
  synchronization_point_achieved label successfully = elim ctx.membership [
    | none ↦ exception_variant federation federate_not_execution_member
    | some m ↦ elim (get label federation.sync_points) [
      | none ↦ exception_variant federation synchronization_point_label_not_announced
      | some sp ↦
          if contains m.federate_handle sp.participants
          then after_report node federation label (report m.federate_handle successfully sp)
          else exception_variant federation federate_not_in_synchronization_group
    ]
  ]
