-- ===== src/Rti/Routing.antt =====
-- crates/hla-rti/src/routing.rs: who receives a callback.
use hla4_rs.Prelude.{
  ℕ, ◌%◌, ◌^◌, List, [], ◌∷◌, ◌++◌, Option, none, some, ◌==◌, if◌then◌else◌, length, map,
}
use hla4_rs.Prelude.Eq.{nat_eq, pair_eq}
use hla4_rs.Prelude.Map.{get}
use hla4_rs.Prelude.Sets.{set_insert}
use hla4_rs.Omt.Fom.{inheritance_chain}
use hla4_rs.Wire.MessageType.{no_sequence_number, hla_callback_request}
use hla4_rs.Wire.MessageHeader.{with_payload_size}
use hla4_rs.Wire.Sequence.{claimed_of, next_of}
use hla4_rs.Wire.Frame.{Frame}
use hla4_rs.Rti.Callback.{Callback}
use hla4_rs.Rti.State.{Federation, Node, ConnectionHandle}

-- A callback for the session with the number `target`.
pub record OutboundCallback : Type 0 where
  pub target : ℕ
  pub body : Callback

-- The frame, with a fresh sequence number, and the counter after the claim.
unfoldable pub into_frame :
    (Callback → List ℕ) → ConnectionHandle → Callback → Frame × ConnectionHandle
unfolding with_payload_size claimed_of next_of
into_frame encode_to_vec target callback =
    let body = encode_to_vec callback in
    let seq = claimed_of target.next_outbound_seq in
    (
      record {
        header =
            with_payload_size (length body % 2 ^ 32) seq target.session_id no_sequence_number
              hla_callback_request;
        payload = body;
      },
      record target { next_outbound_seq = next_of seq },
    )

module _ {T : Type 0} where
  unfoldable pub live_connection : Node → Federation T → ℕ → List ConnectionHandle
  live_connection node federation fh = elim (get fh federation.federates) [
    | none ↦ []
    | some fs ↦ elim (get fs.session_id node.connections) [ none ↦ [] | some c ↦ c ∷ [] ]
  ]

  unfoldable pub live_connections : Node → Federation T → List ℕ → List ConnectionHandle
  unfolding live_connection
  live_connections node federation [] = []
  live_connections node federation (fh ∷ fhs) =
      live_connection node federation fh ++ live_connections node federation fhs

unfoldable pub fan_out : List ConnectionHandle → Callback → List OutboundCallback
fan_out connections callback =
    map (λ c. record { target = c.session_id; body = callback }) connections

-- The members of `set` but the excluded federate, added to `out`.
unfoldable pub add_but : Option ℕ → List ℕ → List ℕ → List ℕ
add_but exclude [] out = out
add_but none (fh ∷ set) out = add_but none set (set_insert fh out)
add_but (some x) (fh ∷ set) out = add_but (some x) set (if fh == x then out else set_insert fh out)

module _ {T : Type 0} where
  -- the attributes at one class of the chain
  unfoldable pub subscribers_at : Federation T → ℕ → List ℕ → Option ℕ → List ℕ → List ℕ
  unfolding add_but
  subscribers_at federation ancestor [] exclude out = out
  subscribers_at federation ancestor (attr ∷ attrs) exclude out =
      subscribers_at federation ancestor attrs exclude
        (elim (get (ancestor, attr) federation.subscriptions.by_attribute) [
          | none ↦ out
          | some set ↦ add_but exclude set out
        ])

  unfoldable pub subscribers_along : Federation T → List ℕ → List ℕ → Option ℕ → List ℕ → List ℕ
  unfolding subscribers_at
  subscribers_along federation [] attrs exclude out = out
  subscribers_along federation (ancestor ∷ up) attrs exclude out =
      subscribers_along federation up attrs exclude
        (subscribers_at federation ancestor attrs exclude out)

  unfoldable pub subscribers_for_attributes : Federation T → ℕ → List ℕ → Option ℕ → List ℕ
  unfolding subscribers_along inheritance_chain
  subscribers_for_attributes federation class attrs exclude =
      subscribers_along federation (inheritance_chain federation.fom class) attrs exclude []
