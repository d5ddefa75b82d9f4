-- ===== src/Rti/Federations.antt =====
-- crates/hla-rti/src/dispatch/federation_mgmt.rs: the federations of a node. A session's membership
-- names its federation, which the program holds by a shared pointer. `parse` stands for the decoding
-- of a module's text by the XML reader, `federate_name` for `format!("federate-{raw_handle:08X}")`.
use Prim.Native.String.{String}
use hla4_rs.Prelude.{
  ℕ, ◌+◌, ◌%◌, ◌^◌, List, [], ◌∷◌, Bool, true, false, ◌||◌, Option, none, some, Result, ok, err,
  ◌>>=◌, ◌==◌, if◌then◌else◌,
}
use hla4_rs.Prelude.Eq.{nat_eq, string_eq}
use hla4_rs.Prelude.Map.{Map, get, insert, remove, modify, contains_key}
use hla4_rs.Omt.Fom.{FomModule, MergedFom}
use hla4_rs.Omt.Merge.{merge_modules}
use hla4_rs.Rti.Exception.{
  HlaException, federate_not_execution_member, error_reading_fdd, could_not_open_fdd,
  federation_execution_already_exists, federation_execution_does_not_exist,
  federates_currently_joined, federate_already_execution_member, federate_name_already_in_use,
}
use hla4_rs.Rti.State.{
  Federation, FederateSession, Membership, Resp, exception_data,
  destroy_federation_execution_response, resign_federation_execution_response,
}
use hla4_rs.Rti.Subscriptions.{is_empty}
use hla4_rs.Rti.Defaults.{default_pub_sub, default_switches, default_time, new_federation}
pub mod MemberNames
mod Examples

pub record Registry (T : Type 0) : Type 0 where
  pub federations : Map String (Federation T)
  pub default_fom : MergedFom

pub record Joined : Type 0 where
  pub federation : String
  pub membership : Membership

pub record Session : Type 0 where
  pub session_id : ℕ
  pub joined : Option Joined

-- The forms of a module: a file with its content, the two that are refused, and none.
pub data ProtoFomModule : Type 0 where
  file : List ℕ → ProtoFomModule
  compressed_module url unset : ProtoFomModule

unfoldable pub decode_fom_module : (List ℕ → Option FomModule) → ProtoFomModule → Option FomModule
decode_fom_module parse (file content) = parse content
decode_fom_module parse compressed_module = none
decode_fom_module parse url = none
decode_fom_module parse unset = none

unfoldable pub decode_fom_modules :
    (List ℕ → Option FomModule) → List ProtoFomModule → Result HlaException (List FomModule)
unfolding decode_fom_module
decode_fom_modules parse [] = ok []
decode_fom_modules parse (pm ∷ proto_modules) = elim (decode_fom_module parse pm) [
  | none ↦ err could_not_open_fdd
  | some m ↦ decode_fom_modules parse proto_modules >>= (λ modules. ok (m ∷ modules))
]

-- The object model of a new federation.
unfoldable pub fom_for : MergedFom → List FomModule → Result HlaException MergedFom
unfolding merge_modules
fom_for default_fom [] = ok default_fom
fom_for default_fom (m ∷ modules) = elim (merge_modules (m ∷ modules)) [
  | err e ↦ err error_reading_fdd
  | ok fom ↦ ok fom
]

module _ {T : Type 0} where
  unfoldable pub create_federation_inner :
      (List ℕ → Option FomModule)
      → Registry T
      → String
      → List ProtoFomModule
      → Result HlaException (Registry T)
  unfolding contains_key decode_fom_modules fom_for insert
  create_federation_inner parse node federation_name proto_modules =
      elim (string_eq.beq federation_name "") [
        | true ↦ err error_reading_fdd
        | false ↦ elim (contains_key federation_name node.federations) [
          | true ↦ err federation_execution_already_exists
          | false ↦ decode_fom_modules parse proto_modules >>= (λ modules.
              fom_for node.default_fom modules >>= (λ fom. ok (record node {
                federations =
                    insert federation_name (new_federation federation_name fom) node.federations;
              })))
        ]
      ]

  unfoldable pub destroy_federation_execution : Registry T → String → Registry T × Resp
  unfolding get remove
  destroy_federation_execution node federation_name = elim (get federation_name node.federations) [
    | none ↦ (node, exception_data federation_execution_does_not_exist)
    | some entry ↦ elim (is_empty entry.federates) [
      | false ↦ (node, exception_data federates_currently_joined)
      | true ↦ (
        record node { federations = remove federation_name node.federations },
        destroy_federation_execution_response,
      )
    ]
  ]

  unfoldable pub federate_name_in_use : String → Map ℕ (FederateSession T) → Bool
  federate_name_in_use name [] = false
  federate_name_in_use name ((fh, fs) ∷ federates) =
      string_eq.beq fs.name name || federate_name_in_use name federates

  -- The name of the new federate; none when the requested one is taken.
  abbrev pub joining_name :
      (ℕ → String) → ℕ → Map ℕ (FederateSession T) → Option String → Option String
  joining_name federate_name raw_handle federates none = some (federate_name raw_handle)
  joining_name federate_name raw_handle federates (some n) =
      if federate_name_in_use n federates then none else some n

  abbrev pub new_federate : T → ℕ → String → ℕ → FederateSession T
  new_federate zero handle name session_id = record {
    handle = handle;
    name = name;
    federate_type = "";
    session_id = session_id;
    pub_sub = default_pub_sub;
    time = default_time zero;
    switches = default_switches;
    tso_queue = [];
  }

  -- The federation after the claim of a handle.
  abbrev pub claimed : Federation T → Federation T
  claimed federation = record federation {
    next_federate_id = (federation.next_federate_id + 1) % 2 ^ 32;
  }

-- What a join leaves: the node and the session, and the new handle or the exception.
pub record JoinOutcome (T : Type 0) : Type 0 where
  pub node : Registry T
  pub ctx : Session
  pub result : Result HlaException ℕ

module _ {T : Type 0} (federate_name : ℕ → String) (zero : T) (node : Registry T)
    (ctx : Session) where
  unfoldable pub join : Option String → String → JoinOutcome T
  unfolding get insert federate_name_in_use
  join requested_name federation_name = elim ctx.joined [
    | some j ↦ record { node = node; ctx = ctx; result = err federate_already_execution_member }
    | none ↦ elim (get federation_name node.federations) [
      | none ↦ record { node = node; ctx = ctx; result = err federation_execution_does_not_exist }
      | some federation ↦
          let raw_handle = federation.next_federate_id in
          elim (joining_name federate_name raw_handle federation.federates requested_name) [
            | none ↦ record {
              node = record node {
                federations = insert federation_name (claimed federation) node.federations;
              };
              ctx = ctx;
              result = err federate_name_already_in_use;
            }
            | some name ↦ record {
              node = record node {
                federations =
                    insert federation_name
                      (record (claimed federation) {
                        federates =
                            insert raw_handle (new_federate zero raw_handle name ctx.session_id)
                              federation.federates;
                      })
                      node.federations;
              };
              ctx = record ctx {
                joined = some (record {
                  federation = federation_name;
                  membership = record { federate_handle = raw_handle; federate_name = name };
                });
              };
              result = ok raw_handle;
            }
          ]
    ]
  ]

module _ {T : Type 0} (node : Registry T) (ctx : Session) where
  unfoldable pub resign : Registry T × (Session × Resp)
  unfolding modify remove
  resign = elim ctx.joined [
    | none ↦ (node, (ctx, exception_data federate_not_execution_member))
    | some j ↦ (
      record node {
        federations =
            modify j.federation
              (λ f. record f { federates = remove j.membership.federate_handle f.federates })
              node.federations;
      },
      (record ctx { joined = none }, resign_federation_execution_response),
    )
  ]
