-- ===== src/Rti/DataFlow.antt =====
-- crates/hla-rti/src/dispatch/data_flow.rs and object_mgmt.rs: what the calls of object management
-- have in common: the values of a call, the discovery of an instance, the routing of a message.
use Prim.Native.String.{String}
use hla4_rs.Prelude.{
  ℕ, zero, suc, ◌+◌, List, [], ◌∷◌, ◌++◌, Bool, true, false, not, ◌&&◌, Option, none, some, Result,
  ok, err, ◌==◌, if◌then◌else◌, length,
}
use hla4_rs.Prelude.Eq.{nat_eq, pair_eq}
use hla4_rs.Prelude.Map.{Map, get, insert, modify, keys}
use hla4_rs.Prelude.Sets.{contains, set_insert, set_remove, set_extend}
use hla4_rs.Omt.Fom.{and_then, interaction_class_def, interaction_class_handle}
use hla4_rs.Rti.Exception.{HlaException, invalid_attribute_handle, invalid_parameter_handle}
use hla4_rs.Rti.Callback.{Callback, discover_object_instance}
use hla4_rs.Rti.Handles.{decode_attribute, decode_parameter}
use hla4_rs.Rti.Ownership.{owns}
use hla4_rs.Rti.Regions.{filter_subscribers_by_regions}
use hla4_rs.Rti.State.{Federation, FederateSession, PubSubState, TsoMessage, Node}
use hla4_rs.Rti.Routing.{OutboundCallback, live_connections, fan_out, add_but}
use hla4_rs.Rti.F64.{F64}
use hla4_rs.Rti.TsoQueue.{split_queue}
pub mod Objects
pub mod Interactions
pub mod Queues
pub mod Untimed
pub mod Calls
mod Examples

-- An entry of a value map: a handle, which may be missing, and a value.
abbrev pub Entry : Type 0
Entry = Option (List ℕ) × List ℕ

unfoldable pub decode_entries :
    HlaException
    → (List ℕ → Result HlaException ℕ)
    → List Entry
    → Map ℕ (List ℕ)
    → Result HlaException (Map ℕ (List ℕ))
unfolding insert
decode_entries missing decode [] out = ok out
decode_entries missing decode ((none, value) ∷ entries) out = err missing
decode_entries missing decode ((some handle, value) ∷ entries) out = elim (decode handle) [
  | err n ↦ err n
  | ok h ↦ decode_entries missing decode entries (insert h value out)
]

unfoldable pub decode_attribute_value_map :
    Option (List Entry) → Result HlaException (Map ℕ (List ℕ))
unfolding decode_entries decode_attribute
decode_attribute_value_map none = ok []
decode_attribute_value_map (some entries) =
    decode_entries invalid_attribute_handle decode_attribute entries []

unfoldable pub decode_parameter_value_map :
    Option (List Entry) → Result HlaException (Map ℕ (List ℕ))
unfolding decode_entries decode_parameter
decode_parameter_value_map none = ok []
decode_parameter_value_map (some entries) =
    decode_entries invalid_parameter_handle decode_parameter entries []

-- Whether the federate owns every one of the attributes.
unfoldable pub owns_all : ℕ → Map ℕ ℕ → List ℕ → Bool
unfolding get
owns_all fh owners [] = true
owns_all fh owners (a ∷ attrs) = owns fh (get a owners) && owns_all fh owners attrs

module _ {T : Type 0} where
  -- The candidates that had not discovered the instance, and the federates after the loop.
  unfoldable pub discover :
      ℕ → List ℕ → Map ℕ (FederateSession T) → Map ℕ (FederateSession T) × List ℕ
  unfolding get insert contains set_insert
  discover instance' [] federates = (federates, [])
  discover instance' (fh ∷ candidates) federates = elim (get fh federates) [
    | none ↦ discover instance' candidates federates
    | some fs ↦ elim (contains instance' fs.pub_sub.discovered_instances) [
      | true ↦ discover instance' candidates federates
      | false ↦
          let fs' : FederateSession T = record fs {
            pub_sub = record fs.pub_sub {
              discovered_instances = set_insert instance' fs.pub_sub.discovered_instances;
            };
          } in
          let rest = discover instance' candidates (insert fh fs' federates) in
          (rest.0, fh ∷ rest.1)
    ]
  ]

  -- The end of both discoveries: the loop, and one callback for each federate that it found.
  unfoldable pub announce_instance :
      Node → Federation T → ℕ → ℕ → String → ℕ → List ℕ → Federation T × List OutboundCallback
  unfolding discover live_connections fan_out
  announce_instance node federation instance' class name producer candidates =
      let found = discover instance' candidates federation.federates in
      let after : Federation T = record federation { federates = found.0 } in
      (
        after,
        fan_out (live_connections node after found.1)
            (discover_object_instance instance' class name producer),
      )

  unfoldable pub notify_subscribers_of_registration_subset :
      Node → Federation T → ℕ → ℕ → ℕ → List ℕ → Federation T × List OutboundCallback
  unfolding get announce_instance
  notify_subscribers_of_registration_subset node federation instance' class producer candidates =
      elim (get instance' federation.object_instances) [
        | none ↦ (federation, [])
        | some inst ↦
            announce_instance node federation instance' class inst.name producer candidates
      ]

  -- The subscribers that match on one of the attributes.
  unfoldable pub matched_subscribers : Federation T → List ℕ → ℕ → ℕ → List ℕ → List ℕ
  unfolding filter_subscribers_by_regions set_extend
  matched_subscribers federation subscribers instance' class [] = []
  matched_subscribers federation subscribers instance' class (attr ∷ attrs) =
      set_extend (filter_subscribers_by_regions federation subscribers instance' class attr)
        (matched_subscribers federation subscribers instance' class attrs)

  -- The federates that had discovered the instance, the caller excepted, forget it.
  unfoldable pub forget : ℕ → ℕ → Map ℕ (FederateSession T) → Map ℕ (FederateSession T) × List ℕ
  unfolding contains set_remove set_insert
  forget caller instance' [] = ([], [])
  forget caller instance' ((fh, fs) ∷ federates) =
      let rest = forget caller instance' federates in
      if (not (fh == caller)) && contains instance' fs.pub_sub.discovered_instances
      then (
        (
          fh,
          record fs {
            pub_sub = record fs.pub_sub {
              discovered_instances = set_remove instance' fs.pub_sub.discovered_instances;
            };
          },
        )
            ∷ rest.0,
        set_insert fh rest.1,
      )
      else ((fh, fs) ∷ rest.0, rest.1)

  -- The classes above an interaction class are at most as many as there are classes.
  unfoldable pub interaction_subscribers : ℕ → Federation T → Option ℕ → Option ℕ → List ℕ → List ℕ
  unfolding get add_but interaction_class_def interaction_class_handle
  interaction_subscribers zero federation current exclude out = out
  interaction_subscribers (suc fuel) federation none exclude out = out
  interaction_subscribers (suc fuel) federation (some c) exclude out =
      interaction_subscribers fuel federation
        (and_then (interaction_class_def federation.fom c)
          (λ def. and_then def.parent (interaction_class_handle federation.fom)))
        exclude
        (elim (get c federation.subscriptions.by_interaction) [
          | none ↦ out
          | some set ↦ add_but exclude set out
        ])

  unfoldable pub subscribers_for_interaction : Federation T → ℕ → Option ℕ → List ℕ
  unfolding interaction_subscribers
  subscribers_for_interaction federation class exclude =
      interaction_subscribers (length federation.fom.interaction_classes + 1) federation
        (some class) exclude []

module _ (f : F64) where
  -- A constrained federate whose time is behind the message waits for it.
  abbrev pub must_wait : f.T → FederateSession f.T → Bool
  must_wait time fs = fs.time.is_constrained && f.lt fs.time.current_time time

  -- The subscribers that get the message now, and those that wait for it.
  unfoldable pub sort_subscribers : f.T → Map ℕ (FederateSession f.T) → List ℕ → List ℕ × List ℕ
  unfolding get
  sort_subscribers time federates [] = ([], [])
  sort_subscribers time federates (fh ∷ subscribers) =
      let rest = sort_subscribers time federates subscribers in
      elim (get fh federates) [
        | none ↦ rest
        | some fs ↦
            if must_wait time fs then (rest.0, fh ∷ rest.1) else (set_insert fh rest.0, rest.1)
      ]

  -- The message at the partition point of the queue.
  unfoldable pub enqueue : TsoMessage f.T → List (TsoMessage f.T) → List (TsoMessage f.T)
  unfolding split_queue
  enqueue message queue = let cut = split_queue f message.time queue in cut.0 ++ (message ∷ cut.1)

  unfoldable pub enqueue_each :
      TsoMessage f.T → List ℕ → Map ℕ (FederateSession f.T) → Map ℕ (FederateSession f.T)
  unfolding modify enqueue
  enqueue_each message [] federates = federates
  enqueue_each message (fh ∷ queued) federates =
      enqueue_each message queued
        (modify fh (λ fs. record fs { tso_queue = enqueue message fs.tso_queue }) federates)

  unfoldable pub route_tso_or_immediate :
      Node → Federation f.T → List ℕ → f.T → Callback → Federation f.T × List OutboundCallback
  unfolding sort_subscribers enqueue_each live_connections fan_out
  route_tso_or_immediate node federation subscribers time callback =
      let sorted = sort_subscribers time federation.federates subscribers in
      (
        record federation {
          federates =
              enqueue_each (record { time = time; callback = callback }) sorted.1
                federation.federates;
        },
        fan_out (live_connections node federation sorted.0) callback,
      )
