-- ===== src/Rti/TsoQueue.antt =====
-- crates/hla-rti/src/dispatch/data_flow.rs and time_mgmt.rs: time-stamp ordered messages are
-- delivered before the grant. `partition_point` on a queue that is sorted, as the program keeps it,
-- is the first message that is later.
use hla4_rs.Prelude.{ℕ, List, [], ◌∷◌, ◌++◌, none, some, if◌then◌else◌}
use hla4_rs.Prelude.Eq.{nat_eq}
use hla4_rs.Prelude.Map.{get, insert}
use hla4_rs.Rti.State.{Federation, TsoMessage, Node}
use hla4_rs.Rti.Routing.{OutboundCallback, live_connections, fan_out}
use hla4_rs.Rti.Handler.{single}
use hla4_rs.Rti.F64.{F64}
use hla4_rs.Rti.Time.{lbts, to_grant, with_federates, try_grant_pending_advances}

module _ (f : F64) where
  -- The messages up to the partition point of a queue, and those from it.
  unfoldable pub split_queue :
      f.T → List (TsoMessage f.T) → List (TsoMessage f.T) × List (TsoMessage f.T)
  split_queue up_to [] = ([], [])
  split_queue up_to (m ∷ queue) =
      let rest = split_queue up_to queue in
      if f.le m.time up_to then (m ∷ rest.0, rest.1) else ([], m ∷ queue)

  unfoldable pub deliver : Node → Federation f.T → ℕ → List (TsoMessage f.T) → List OutboundCallback
  unfolding live_connections fan_out
  deliver node federation federate [] = []
  deliver node federation federate (m ∷ drained) =
      fan_out (live_connections node federation (single federate)) m.callback
      ++ deliver node federation federate drained

  unfoldable pub drain_tso_up_to :
      Node → Federation f.T → ℕ → f.T → Federation f.T × List OutboundCallback
  unfolding get insert split_queue deliver
  drain_tso_up_to node federation federate up_to = elim (get federate federation.federates) [
    | none ↦ (federation, [])
    | some fs ↦
        let queue = split_queue up_to fs.tso_queue in
        let federation' =
          with_federates f federation
            (insert federate (record fs { tso_queue = queue.1 }) federation.federates) in
        (federation', deliver node federation' federate queue.0)
  ]

  unfoldable pub drain_each :
      Node → Federation f.T → List (ℕ × f.T) → Federation f.T × List OutboundCallback
  unfolding drain_tso_up_to
  drain_each node federation [] = (federation, [])
  drain_each node federation ((fh, t) ∷ grants) =
      let first = drain_tso_up_to node federation fh t in
      let others = drain_each node first.0 grants in (others.0, first.1 ++ others.1)

  unfoldable pub try_grant_pending_advances_with_tso :
      Node → Federation f.T → Federation f.T × List OutboundCallback
  unfolding drain_each lbts to_grant try_grant_pending_advances
  try_grant_pending_advances_with_tso node federation =
      let grants = to_grant f (lbts f federation.federates) federation.federates in
      let drained = drain_each node federation grants in
      let ran = try_grant_pending_advances f node drained.0 in (ran.0, drained.1 ++ ran.1)
