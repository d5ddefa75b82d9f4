-- ===== src/Rti/Time.antt =====
-- crates/hla-rti/src/time.rs: the bound on time stamps and the grants of pending advances.
use hla4_rs.Prelude.{
  ℕ, zero, suc, ◌+◌, List, [], ◌∷◌, ◌++◌, Bool, true, false, not, ◌||◌, ◌&&◌, Option, none, some,
  if◌then◌else◌, length, map,
}
use hla4_rs.Prelude.Eq.{Eq, nat_eq}
use hla4_rs.Prelude.Map.{Map, get, insert}
use hla4_rs.Rti.Callback.{time_advance_grant}
use hla4_rs.Rti.State.{Federation, FederateSession, TimeState, Node}
use hla4_rs.Rti.Routing.{OutboundCallback, live_connections, fan_out}
use hla4_rs.Rti.Handler.{single}
use hla4_rs.Rti.F64.{F64}
pub mod Bound
pub mod Waves
pub mod Progress
pub mod Grants

module _ (f : F64) where
  abbrev pub Federates : Type 0
  Federates = Map ℕ (FederateSession f.T)

  -- What one federate contributes to the fold.
  unfoldable pub lower : FederateSession f.T → f.T → f.T
  lower fs bound =
      if fs.time.is_regulating
      then f.min bound (f.add fs.time.current_time fs.time.lookahead)
      else bound

  unfoldable pub lbts_from : f.T → Federates → f.T
  unfolding lower
  lbts_from bound [] = bound
  lbts_from bound ((fh, fs) ∷ federates) = lbts_from (lower fs bound) federates

  unfoldable pub lbts : Federates → f.T
  unfolding lbts_from
  lbts federates = lbts_from f.infinity federates

  -- The time at which the federate can be granted, if it can.
  unfoldable pub grantable : f.T → FederateSession f.T → Option f.T
  grantable bound fs = elim fs.time.pending_advance [
    | none ↦ none
    | some pending ↦ if not fs.time.is_constrained || f.le pending bound then some pending else none
  ]

  -- The first pass: who can be granted.
  unfoldable pub to_grant : f.T → Federates → List (ℕ × f.T)
  unfolding grantable
  to_grant bound [] = []
  to_grant bound ((fh, fs) ∷ federates) = elim (grantable bound fs) [
    | none ↦ to_grant bound federates
    | some pending ↦ (fh, pending) ∷ to_grant bound federates
  ]

  unfoldable pub granted : f.T → FederateSession f.T → FederateSession f.T
  granted time fs = record fs {
    time = record fs.time { current_time = time; pending_advance = none };
  }

  -- `fs.time.pending_advance == Some(time)`
  unfoldable pub is_pending : f.T → FederateSession f.T → Bool
  is_pending time fs = elim fs.time.pending_advance [ none ↦ false | some t ↦ f.eq t time ]

  unfoldable pub apply_grant : ℕ → f.T → Federates → Federates × List (ℕ × f.T)
  unfolding granted is_pending get insert
  apply_grant fh time federates = elim (get fh federates) [
    | none ↦ (federates, [])
    | some fs ↦
        if is_pending time fs
        then (insert fh (granted time fs) federates, (fh, time) ∷ [])
        else (federates, [])
  ]

  -- The second pass, and whom it granted.
  unfoldable pub apply_grants : List (ℕ × f.T) → Federates → Federates × List (ℕ × f.T)
  unfolding apply_grant
  apply_grants [] federates = (federates, [])
  apply_grants ((fh, time) ∷ grants) federates =
      let first = apply_grant fh time federates in
      let others = apply_grants grants first.0 in (others.0, first.1 ++ others.1)

  unfoldable pub announce : Node → Federation f.T → List (ℕ × f.T) → List OutboundCallback
  unfolding live_connections fan_out
  announce node federation [] = []
  announce node federation ((fh, time) ∷ grants) =
      fan_out (live_connections node federation (single fh))
        (time_advance_grant (f.to_be_bytes time))
      ++ announce node federation grants

  abbrev pub with_federates : Federation f.T → Federates → Federation f.T
  with_federates federation federates = record federation { federates = federates }

  -- The recursion runs on fuel, of which every wave takes one.
  unfoldable pub grant_waves : ℕ → Node → Federation f.T → Federation f.T × List OutboundCallback
  unfolding lbts to_grant apply_grants announce
  grant_waves zero node federation = (federation, [])
  grant_waves (suc fuel) node federation =
      let bound = lbts federation.federates in
      let applied = apply_grants (to_grant bound federation.federates) federation.federates in
      let federation' = with_federates federation applied.0 in
      let sent = announce node federation' applied.1 in
      let next = grant_waves fuel node federation' in
      elim (to_grant bound federation.federates) [
        | [] ↦ (federation, [])
        | _ ∷ _ ↦
            if f.lt bound (lbts applied.0) then (next.0, sent ++ next.1) else (federation', sent)
      ]

  -- A wave grants a federate or is the last, so one more than the federates is enough.
  unfoldable pub try_grant_pending_advances :
      Node → Federation f.T → Federation f.T × List OutboundCallback
  unfolding grant_waves
  try_grant_pending_advances node federation =
      grant_waves (length federation.federates + 1) node federation
