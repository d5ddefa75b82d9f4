-- ===== src/Rti/TimeQueries.antt =====
-- crates/hla-rti/src/dispatch/time_mgmt.rs: the handlers that only read.
use hla4_rs.Prelude.{[], not, none, some, if◌then◌else◌}
use hla4_rs.Prelude.Eq.{nat_eq}
use hla4_rs.Prelude.Map.{get}
use hla4_rs.Rti.Exception.{federate_not_execution_member, time_regulation_is_not_enabled}
use hla4_rs.Rti.State.{
  Federation, SessionContext, query_logical_time_response, query_lookahead_response,
  query_lits_response,
}
use hla4_rs.Rti.Handler.{Outcome, exception_variant}
use hla4_rs.Rti.F64.{F64}
use hla4_rs.Rti.Time.{lbts}

module _ (f : F64) (ctx : SessionContext) (federation : Federation f.T) where
  unfoldable pub query_logical_time : Outcome f.T
  unfolding get
  query_logical_time = elim ctx.membership [
    | none ↦ exception_variant federation federate_not_execution_member
    | some m ↦ elim (get m.federate_handle federation.federates) [
      | none ↦ exception_variant federation federate_not_execution_member
      | some fs ↦ record {
        federation = federation;
        callbacks = [];
        response = query_logical_time_response (f.to_be_bytes fs.time.current_time);
      }
    ]
  ]

  unfoldable pub query_lits : Outcome f.T
  unfolding lbts
  query_lits = elim ctx.membership [
    | none ↦ exception_variant federation federate_not_execution_member
    | some m ↦
        let bound = lbts f federation.federates in
        record {
          federation = federation;
          callbacks = [];
          response =
              query_lits_response (f.is_finite bound)
                (f.to_be_bytes (if f.is_finite bound then bound else f.zero));
        }
  ]

  unfoldable pub query_lookahead : Outcome f.T
  unfolding get
  query_lookahead = elim ctx.membership [
    | none ↦ exception_variant federation federate_not_execution_member
    | some m ↦ elim (get m.federate_handle federation.federates) [
      | none ↦ exception_variant federation federate_not_execution_member
      | some fs ↦
          if not fs.time.is_regulating
          then exception_variant federation time_regulation_is_not_enabled
          else record {
            federation = federation;
            callbacks = [];
            response = query_lookahead_response (f.to_be_bytes fs.time.lookahead);
          }
    ]
  ]
