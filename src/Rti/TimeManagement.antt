-- ===== src/Rti/TimeManagement.antt =====
-- crates/hla-rti/src/dispatch/time_mgmt.rs: the handlers of the Time Management service group that
-- change state. Times and intervals arrive as bytes.
use hla4_rs.Prelude.{
  ℕ, List, [], ◌∷◌, ◌++◌, Bool, true, false, not, ◌||◌, ◌&&◌, Option, none, some, Result, ok, err,
  ◌==◌, if◌then◌else◌, length, map,
}
use hla4_rs.Prelude.Eq.{Eq, nat_eq}
use hla4_rs.Prelude.Map.{Map, get, insert}
use hla4_rs.Rti.Exception.{
  HlaException, federate_not_execution_member, invalid_lookahead, invalid_logical_time,
  logical_time_already_passed, in_time_advancing_state, time_regulation_already_enabled,
  time_regulation_is_not_enabled, time_constrained_already_enabled, time_constrained_is_not_enabled,
}
use hla4_rs.Rti.Callback.{time_regulation_enabled, time_constrained_enabled, time_advance_grant}
use hla4_rs.Rti.State.{
  Federation, FederateSession, TimeState, TsoMessage, Node, SessionContext, Membership,
  enable_time_regulation_response, disable_time_regulation_response,
  enable_time_constrained_response, disable_time_constrained_response,
  time_advance_request_response, modify_lookahead_response, query_logical_time_response,
  query_lookahead_response, query_lits_response,
}
use hla4_rs.Rti.Routing.{OutboundCallback, live_connections, fan_out}
use hla4_rs.Rti.Handler.{Outcome, exception_variant, single}
use hla4_rs.Rti.F64.{F64}
use hla4_rs.Rti.Time.{
  Federates, lbts, to_grant, granted, is_pending, with_federates, try_grant_pending_advances,
}
use hla4_rs.Rti.TsoQueue.{drain_tso_up_to, try_grant_pending_advances_with_tso}
pub mod Timely
pub mod Settled
mod Examples

module _ (f : F64) where
  unfoldable pub decode_logical_time : List ℕ → Result HlaException f.T
  decode_logical_time bytes =
      if length bytes == 8 then ok (f.from_be_bytes bytes) else err invalid_logical_time

  unfoldable pub decode_logical_time_interval : List ℕ → Result HlaException f.T
  decode_logical_time_interval bytes =
      if length bytes == 8 then ok (f.from_be_bytes bytes) else err invalid_lookahead

  -- The requested lookahead, if it is finite and not negative.
  unfoldable pub checked_lookahead : Option (List ℕ) → Result HlaException f.T
  unfolding decode_logical_time_interval
  checked_lookahead none = err invalid_lookahead
  checked_lookahead (some bytes) = elim (decode_logical_time_interval bytes) [
    | err n ↦ err n
    | ok v ↦ if f.is_finite v && f.le f.zero v then ok v else err invalid_lookahead
  ]

  unfoldable pub checked_time : Option (List ℕ) → Result HlaException f.T
  unfolding decode_logical_time
  checked_time none = err invalid_logical_time
  checked_time (some bytes) = elim (decode_logical_time bytes) [
    | err n ↦ err n
    | ok v ↦ if f.is_finite v then ok v else err logical_time_already_passed
  ]

module _ (f : F64) (node : Node) (ctx : SessionContext) (federation : Federation f.T) where
  unfoldable pub enable_time_regulation : Option (List ℕ) → Outcome f.T
  unfolding checked_lookahead get insert live_connections fan_out try_grant_pending_advances
  enable_time_regulation lookahead = elim ctx.membership [
    | none ↦ exception_variant federation federate_not_execution_member
    | some m ↦ elim (checked_lookahead f lookahead) [
      | err n ↦ exception_variant federation n
      | ok lookahead' ↦ elim (get m.federate_handle federation.federates) [
        | none ↦ exception_variant federation federate_not_execution_member
        | some fs ↦
            if fs.time.is_regulating
            then exception_variant federation time_regulation_already_enabled
            else let time' = record fs.time { is_regulating = true; lookahead = lookahead' } in
              let federation' =
                with_federates f federation
                  (insert m.federate_handle (record fs { time = time' }) federation.federates) in
              let ran = try_grant_pending_advances f node federation' in
              record {
                federation = ran.0;
                callbacks =
                    fan_out (live_connections node federation' (single m.federate_handle))
                      (time_regulation_enabled (f.to_be_bytes fs.time.current_time))
                    ++ ran.1;
                response = enable_time_regulation_response;
              }
      ]
    ]
  ]

  unfoldable pub disable_time_regulation : Outcome f.T
  unfolding get insert try_grant_pending_advances
  disable_time_regulation = elim ctx.membership [
    | none ↦ exception_variant federation federate_not_execution_member
    | some m ↦ elim (get m.federate_handle federation.federates) [
      | none ↦ exception_variant federation federate_not_execution_member
      | some fs ↦
          if not fs.time.is_regulating
          then exception_variant federation time_regulation_is_not_enabled
          else let time' = record fs.time { is_regulating = false } in
            let federation' =
              with_federates f federation
                (insert m.federate_handle (record fs { time = time' }) federation.federates) in
            let ran = try_grant_pending_advances f node federation' in
            record {
              federation = ran.0;
              callbacks = ran.1;
              response = disable_time_regulation_response;
            }
    ]
  ]

  unfoldable pub enable_time_constrained : Outcome f.T
  unfolding get insert live_connections fan_out
  enable_time_constrained = elim ctx.membership [
    | none ↦ exception_variant federation federate_not_execution_member
    | some m ↦ elim (get m.federate_handle federation.federates) [
      | none ↦ exception_variant federation federate_not_execution_member
      | some fs ↦
          if fs.time.is_constrained
          then exception_variant federation time_constrained_already_enabled
          else let time' = record fs.time { is_constrained = true } in
            let federation' =
              with_federates f federation
                (insert m.federate_handle (record fs { time = time' }) federation.federates) in
            record {
              federation = federation';
              callbacks =
                  fan_out (live_connections node federation' (single m.federate_handle))
                    (time_constrained_enabled (f.to_be_bytes fs.time.current_time));
              response = enable_time_constrained_response;
            }
    ]
  ]

  unfoldable pub disable_time_constrained : Outcome f.T
  unfolding get insert
  disable_time_constrained = elim ctx.membership [
    | none ↦ exception_variant federation federate_not_execution_member
    | some m ↦ elim (get m.federate_handle federation.federates) [
      | none ↦ exception_variant federation federate_not_execution_member
      | some fs ↦
          if not fs.time.is_constrained
          then exception_variant federation time_constrained_is_not_enabled
          else let time' = record fs.time { is_constrained = false } in
            record {
              federation =
                  with_federates f federation
                    (insert m.federate_handle (record fs { time = time' }) federation.federates);
              callbacks = [];
              response = disable_time_constrained_response;
            }
    ]
  ]

  -- The grant of an unconstrained federate's request, made at once.
  unfoldable pub grant_now : ℕ → f.T → Federation f.T → Outcome f.T
  unfolding get insert granted is_pending drain_tso_up_to live_connections fan_out
      try_grant_pending_advances_with_tso
  grant_now fh time requested =
      let federates' : Federates f = elim (get fh requested.federates) [
        | none ↦ requested.federates
        | some fs ↦
            if is_pending f time fs
            then insert fh (granted f time fs) requested.federates
            else requested.federates
      ] in
      let drained = drain_tso_up_to f node (with_federates f requested federates') fh time in
      let ran = try_grant_pending_advances_with_tso f node drained.0 in
      record {
        federation = ran.0;
        callbacks =
            drained.1
            ++ fan_out (live_connections node drained.0 (single fh))
                (time_advance_grant (f.to_be_bytes time))
            ++ ran.1;
        response = time_advance_request_response;
      }

  -- The request of a member whose time is no obstacle.
  unfoldable pub request : ℕ → FederateSession f.T → f.T → Outcome f.T
  unfolding insert grant_now try_grant_pending_advances_with_tso
  request fh fs requested =
      let time' = record fs.time { pending_advance = some requested } in
      let federation' =
        with_federates f federation (insert fh (record fs { time = time' }) federation.federates) in
      let ran = try_grant_pending_advances_with_tso f node federation' in
      if not fs.time.is_constrained then grant_now fh requested federation' else record {
        federation = ran.0;
        callbacks = ran.1;
        response = time_advance_request_response;
      }

  unfoldable pub time_advance_request : Option (List ℕ) → Outcome f.T
  unfolding checked_time get request
  time_advance_request time = elim ctx.membership [
    | none ↦ exception_variant federation federate_not_execution_member
    | some m ↦ elim (checked_time f time) [
      | err n ↦ exception_variant federation n
      | ok requested ↦ elim (get m.federate_handle federation.federates) [
        | none ↦ exception_variant federation federate_not_execution_member
        | some fs ↦ elim fs.time.pending_advance [
          | some _ ↦ exception_variant federation in_time_advancing_state
          | none ↦
              if f.lt requested fs.time.current_time
              then exception_variant federation logical_time_already_passed
              else request m.federate_handle fs requested
        ]
      ]
    ]
  ]

  unfoldable pub modify_lookahead : Option (List ℕ) → Outcome f.T
  unfolding checked_lookahead get insert
  modify_lookahead lookahead = elim ctx.membership [
    | none ↦ exception_variant federation federate_not_execution_member
    | some m ↦ elim (checked_lookahead f lookahead) [
      | err _ ↦ exception_variant federation invalid_lookahead
      | ok lookahead' ↦ elim (get m.federate_handle federation.federates) [
        | none ↦ exception_variant federation federate_not_execution_member
        | some fs ↦
            if not fs.time.is_regulating
            then exception_variant federation time_regulation_is_not_enabled
            else let time' = record fs.time { lookahead = lookahead' } in
              record {
                federation =
                    with_federates f federation
                      (insert m.federate_handle (record fs { time = time' }) federation.federates);
                callbacks = [];
                response = modify_lookahead_response;
              }
      ]
    ]
  ]
