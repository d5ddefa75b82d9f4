-- ===== src/Rti/Save.antt =====
-- crates/hla-rti/src/dispatch/save.rs: the handlers of a federation save. The snapshot that a
-- successful save writes to the disk is input and output, and is left out.
use Prim.Native.String.{String}
use text.Mathlib.Text.{◌==◌ as str_eq}
use hla4_rs.Prelude.{
  ℕ, List, [], ◌∷◌, ◌++◌, Bool, true, false, ◌||◌, ◌&&◌, Option, none, some, if◌then◌else◌, map,
}
use hla4_rs.Prelude.Eq.{Eq, nat_eq}
use hla4_rs.Prelude.Map.{Map, get, insert, keys}
use hla4_rs.Rti.Exception.{
  federate_not_execution_member, invalid_save_label, save_in_progress, save_not_in_progress,
  federate_not_in_save_initiated, federate_not_in_save_set,
}
use hla4_rs.Rti.Callback.{initiate_federate_save, federation_saved, federation_not_saved}
use hla4_rs.Rti.State.{
  Federation, FederateSession, SaveOperation, SaveStatus, initiated, begun_save, save_complete,
  save_not_complete, Node, SessionContext, Membership, request_federation_save_response,
  federate_save_begun_response, federate_save_complete_response,
  federate_save_not_complete_response, abort_federation_save_response,
}
use hla4_rs.Rti.Routing.{live_connections, fan_out}
use hla4_rs.Rti.Handler.{Outcome, exception_variant}
pub mod Progress
pub mod Opening
mod Examples

abbrev pub is_failed : SaveStatus → Bool
is_failed save_not_complete = true
is_failed _ = false

abbrev pub is_done : SaveStatus → Bool
is_done save_complete = true
is_done save_not_complete = true
is_done _ = false

unfoldable pub any_failed : Map ℕ SaveStatus → Bool
any_failed [] = false
any_failed ((fh, s) ∷ statuses) = is_failed s || any_failed statuses

unfoldable pub all_done : Map ℕ SaveStatus → Bool
all_done [] = true
all_done ((fh, s) ∷ statuses) = is_done s && all_done statuses

unfoldable pub all_initiated : List ℕ → Map ℕ SaveStatus
all_initiated participants = map (λ fh. (fh, initiated)) participants

module _ {T : Type 0} (node : Node) (ctx : SessionContext) (federation : Federation T) where
  unfoldable pub request_federation_save : String → Outcome T
  unfolding all_initiated live_connections fan_out
  request_federation_save label = elim ctx.membership [
    | none ↦ exception_variant federation federate_not_execution_member
    | some m ↦
        if str_eq label ""
        then exception_variant federation invalid_save_label
        else let participants = keys federation.federates in
          elim federation.current_save [
            | some _ ↦ exception_variant federation save_in_progress
            | none ↦ record {
              federation = record federation {
                current_save =
                    some (record { label = label; statuses = all_initiated participants });
                last_save_label = some label;
              };
              callbacks =
                  fan_out (live_connections node federation participants)
                    (initiate_federate_save label);
              response = request_federation_save_response;
            }
          ]
  ]

  -- A federate's report on a save that is going on.
  unfoldable pub progressed : ℕ → Bool → SaveOperation → Outcome T
  unfolding insert any_failed all_done live_connections fan_out
  progressed fh successfully save =
      let statuses' =
        insert fh (if successfully then save_complete else save_not_complete) save.statuses in
      let response' =
        if successfully
        then federate_save_complete_response
        else federate_save_not_complete_response in
      if all_done statuses'
      then record {
        federation = record federation { current_save = none };
        callbacks =
            fan_out (live_connections node federation (keys federation.federates))
              (if any_failed statuses' then federation_not_saved 0 else federation_saved);
        response = response';
      }
      else record {
        federation = record federation {
          current_save = some (record save { statuses = statuses' });
        };
        callbacks = [];
        response = response';
      }

  unfoldable pub federate_save_progressed : Bool → Outcome T
  unfolding progressed
  federate_save_progressed successfully = elim ctx.membership [
    | none ↦ exception_variant federation federate_not_execution_member
    | some m ↦ elim federation.current_save [
      | none ↦ exception_variant federation save_not_in_progress
      | some save ↦ progressed m.federate_handle successfully save
    ]
  ]

module _ {T : Type 0} (ctx : SessionContext) (federation : Federation T) where
  unfoldable pub federate_save_begun : Outcome T
  unfolding get insert
  federate_save_begun = elim ctx.membership [
    | none ↦ exception_variant federation federate_not_execution_member
    | some m ↦ elim federation.current_save [
      | none ↦ exception_variant federation save_not_in_progress
      | some save ↦ elim (get m.federate_handle save.statuses) [
        | none ↦ exception_variant federation federate_not_in_save_set
        | some initiated ↦ record {
          federation = record federation {
            current_save =
                some (record save { statuses = insert m.federate_handle begun_save save.statuses });
          };
          callbacks = [];
          response = federate_save_begun_response;
        }
        | some _ ↦ exception_variant federation federate_not_in_save_initiated
      ]
    ]
  ]

  unfoldable pub abort_federation_save : Outcome T
  abort_federation_save = elim ctx.membership [
    | none ↦ exception_variant federation federate_not_execution_member
    | some m ↦ elim federation.current_save [
      | none ↦ exception_variant federation save_not_in_progress
      | some _ ↦ record {
        federation = record federation { current_save = none };
        callbacks = [];
        response = abort_federation_save_response;
      }
    ]
  ]
