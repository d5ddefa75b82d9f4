-- ===== src/Rti/DataFlow/Examples.antt =====
-- Federate 1 sends an interaction with time 5 to federate 2, which is constrained and at time 0.
use Prim.Native.String.{String}
use hla4_rs.Prelude.{ℕ, ◌≡◌, refl, List, [], ◌∷◌, Bool, true, false, some, none, map}
use hla4_rs.Prelude.Eq.{nat_eq}
use hla4_rs.Omt.Fom.{InteractionClassDef, receive}
use hla4_rs.Rti.State.{Federation, TimeState}
use hla4_rs.Rti.Handler.{Outcome}
use hla4_rs.Rti.Wholes.{Whole, wholes, wholes-IsIeee}
use hla4_rs.Rti.Subscriptions.{empty_matrix}
use hla4_rs.Rti.Samples.{node, session_of, member, federation_of, empty_fom, no_pub_sub}
use hla4_rs.Rti.DataFlow.Interactions.{ObjectCall, send_with_time, dispatch_object}
use hla4_rs.Rti.DataFlow.Queues.{QueuesSorted}
use hla4_rs.Rti.DataFlow.Calls.{dispatch_object-QueuesSorted}

abbrev time_of : Bool → TimeState Whole
time_of constrained = record {
  is_regulating = false;
  is_constrained = constrained;
  current_time = some 0;
  lookahead = some 0;
  pending_advance = none;
}

abbrev order : InteractionClassDef
order = record {
  name = "Order";
  parent = none;
  order = receive;
  transportation = "HLAreliable";
  parameters = [];
  semantics = none;
}

abbrev federation : Federation Whole
federation =
    record (federation_of (
      (
        1,
        record (member 1 (time_of false)) {
          pub_sub = record no_pub_sub { published_interactions = 3 ∷ [] };
        },
      )
      ∷ (2, member 2 (time_of true))
      ∷ [])) {
        fom = record empty_fom { interaction_classes = (3, order) ∷ [] };
        subscriptions = record empty_matrix { by_interaction = (3, 2 ∷ []) ∷ [] };
      }

abbrev at : ℕ → List ℕ
at t = 0 ∷ 0 ∷ 0 ∷ 0 ∷ 0 ∷ 0 ∷ 0 ∷ t ∷ []

abbrev order_at : ℕ → ObjectCall
order_at t = send_with_time (some (0 ∷ 0 ∷ 0 ∷ 3 ∷ [])) none [] (some (at t))

abbrev name_of : ℕ → String
name_of h = "HLA"

abbrev send_at : Federation Whole → ℕ → Outcome Whole
send_at before t = dispatch_object wholes name_of node (session_of 1) before (order_at t)

-- The later message is sent first and waits behind the earlier one.
queue_test :
    map
      (λ p. map (λ m. m.time) p.1.tso_queue)
      (send_at (send_at federation 5).federation 3).federation.federates
    ≡ [] ∷ (some 3 ∷ some 5 ∷ []) ∷ []
unfolding dispatch_object
queue_test = refl

dispatch_object-QueuesSorted_example :
    QueuesSorted wholes (send_at federation 5).federation.federates
dispatch_object-QueuesSorted_example =
    dispatch_object-QueuesSorted wholes wholes-IsIeee name_of node (session_of 1) federation
      (order_at 5) (tt, (tt, tt))
