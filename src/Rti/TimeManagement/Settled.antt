-- ===== src/Rti/TimeManagement/Settled.antt =====
-- crates/hla-rti/src/dispatch/time_mgmt.rs: what a time advance request leaves.
use mathlib.Core.Path.{subst, sym}
use mathlib.Core.Option.{some-injective}
use hla4_rs.Prelude.{
  ℕ, ◌≡◌, List, [], true, false, not, Option, none, some, ok, Result-cases, arith, if◌then◌else◌,
  Bool-cases, Option-cases, inl, inr, ◌⊎◌,
}
use hla4_rs.Prelude.Eq.{nat_eq}
use hla4_rs.Prelude.Map.{get, insert}
use hla4_rs.Rti.State.{Federation, FederateSession, Node, SessionContext, Membership}
use hla4_rs.Rti.State.{time_advance_request_response}
use hla4_rs.Rti.Exception.{
  HlaException, federate_not_execution_member, in_time_advancing_state, logical_time_already_passed,
}
use hla4_rs.Rti.Handler.{exception_variant}
use hla4_rs.Rti.F64.{F64, IsIeee}
use hla4_rs.Rti.Time.{Federates, to_grant, granted, is_pending, lbts, with_federates}
use hla4_rs.Rti.Time.Bound.{IsOrdered}
use hla4_rs.Rti.Time.Waves.{IsTimed}
use hla4_rs.Rti.TsoQueue.{drain_tso_up_to, try_grant_pending_advances_with_tso}
use hla4_rs.Rti.TimeManagement.{
  checked_time, decode_logical_time, grant_now, request, time_advance_request,
}
use hla4_rs.Rti.TimeManagement.Timely.{
  IsTimely, get-IsTimed, insert-IsTimely, drain-IsTimely, with_tso-IsTimely, with_tso_complete,
  is_pending-le,
}

-- What a request leaves: times in order, and nobody who can be granted.
pub record IsSettled (f : F64) (federates : Federates f) : Type 0 where
  pub timely : IsTimely f federates
  pub complete : to_grant f (lbts f federates) federates ≡ []

module _ (f : F64) (ieee : IsIeee f) (ordered : IsOrdered f f.infinity) (node : Node)
    (ctx : SessionContext) (federation : Federation f.T) where
  with_tso-IsSettled :
      (before : Federation f.T)
      → IsTimely f before.federates
      → IsSettled f (try_grant_pending_advances_with_tso f node before).0.federates
  with_tso-IsSettled before timely = record {
    timely = with_tso-IsTimely f ieee ordered node before timely;
    complete = with_tso_complete f ieee ordered node before timely;
  }

  grant_now-IsSettled :
      (fh : ℕ) (t : f.T) (requested : Federation f.T)
      → IsOrdered f t
      → IsTimely f requested.federates
      → IsSettled f (grant_now f node ctx federation fh t requested).federation.federates
  unfolding grant_now
  grant_now-IsSettled fh t requested o timely = elim (Option-cases (get fh requested.federates)) [
    | inl e ↦
        rw (grant_now, e)
          (with_tso-IsSettled (drain_tso_up_to f node requested fh t).0
            (drain-IsTimely f node requested fh t timely))
    | inr (fs, e) ↦ elim (Bool-cases (is_pending f t fs)) [
      | inr p ↦
          rw (grant_now, e, p)
            (with_tso-IsSettled (drain_tso_up_to f node requested fh t).0
              (drain-IsTimely f node requested fh t timely))
      | inl p ↦
          let after = with_federates f requested (insert fh (granted f t fs) requested.federates) in
          let old = get-IsTimed f fh fs requested.federates timely.timed e in
          let step =
            insert-IsTimely f fh (granted f t fs) requested.federates
              (is_pending-le f ieee ordered node fs t old p o) timely in
          rw (grant_now, e, p)
            (with_tso-IsSettled (drain_tso_up_to f node after fh t).0
              (drain-IsTimely f node after fh t step))
    ]
  ]

  request-IsSettled :
      (fh : ℕ) (fs : FederateSession f.T) (t : f.T)
      → IsOrdered f t
      → f.lt t fs.time.current_time ≡ false
      → IsTimed f fs
      → IsTimely f federation.federates
      → IsSettled f (request f node ctx federation fh fs t).federation.federates
  unfolding request
  request-IsSettled fh fs t o h old timely =
      let pending = record fs { time = record fs.time { pending_advance = some t } } in
      let after = with_federates f federation (insert fh pending federation.federates) in
      let forth = ieee.le_of_not_lt t fs.time.current_time o old.ordered h in
      let timed : IsTimed f pending = record {
        ordered = old.ordered;
        lookahead_finite = old.lookahead_finite;
        forward =
            λ u e. subst (λ x. f.le fs.time.current_time x ≡ true) (some-injective t u e) forth;
      } in
      let step = insert-IsTimely f fh pending federation.federates timed timely in
      elim (Bool-cases fs.time.is_constrained) [
        | inl c ↦
            subst
              (λ x.
                IsSettled f
                  (if not x then grant_now f node ctx federation fh t after else record {
                    federation = (try_grant_pending_advances_with_tso f node after).0;
                    callbacks = (try_grant_pending_advances_with_tso f node after).1;
                    response = time_advance_request_response;
                  }).federation.federates)
              (sym c) (with_tso-IsSettled after step)
        | inr c ↦
            subst
              (λ x.
                IsSettled f
                  (if not x then grant_now f node ctx federation fh t after else record {
                    federation = (try_grant_pending_advances_with_tso f node after).0;
                    callbacks = (try_grant_pending_advances_with_tso f node after).1;
                    response = time_advance_request_response;
                  }).federation.federates)
              (sym c) (grant_now-IsSettled fh t after o step)
      ]

  checked_time-ok :
      (time : Option (List ℕ)) (v : f.T) → checked_time f time ≡ ok v → f.is_finite v ≡ true
  unfolding checked_time decode_logical_time
  checked_time-ok none v h = cc
  checked_time-ok (some bytes) v h = ground arith

  time_advance_request_lem :
      (time : Option (List ℕ)) (m : Membership) (t : f.T) (fs : FederateSession f.T)
      → ctx.membership ≡ some m
      → checked_time f time ≡ ok t
      → get m.federate_handle federation.federates ≡ some fs
      → fs.time.pending_advance ≡ none
      → f.lt t fs.time.current_time ≡ false
      → time_advance_request f node ctx federation time
        ≡ request f node ctx federation m.federate_handle fs t
  unfolding time_advance_request
  time_advance_request_lem time m t fs e r g p l = simp (time_advance_request, e, r, g, p, l)

  -- A time advance request either has an exception for its response and changes nothing, or leaves
  -- the federates' times in order and no pending advance that can be granted, if the times were in
  -- order and no federate came twice before, and the laws of f64 hold.
  pub time_advance_request_settles :
      (time : Option (List ℕ))
      → IsTimely f federation.federates
      → ((kind : HlaException) × (time_advance_request f node ctx federation time
            ≡ exception_variant federation kind))
        ⊎ IsSettled f (time_advance_request f node ctx federation time).federation.federates
  unfolding time_advance_request
  time_advance_request_settles time timely = elim (Option-cases ctx.membership) [
    | inl e ↦ inl (federate_not_execution_member, rw (time_advance_request, e))
    | inr (m, e) ↦ elim (Result-cases (checked_time f time)) [
      | inr (n, r) ↦ inl (n, rw (time_advance_request, e, r))
      | inl (t, r) ↦ elim (Option-cases (get m.federate_handle federation.federates)) [
        | inl g ↦ inl (federate_not_execution_member, rw (time_advance_request, e, r, g))
        | inr (fs, g) ↦ elim (Option-cases fs.time.pending_advance) [
          | inr (u, p) ↦ inl (in_time_advancing_state, rw (time_advance_request, e, r, g, p))
          | inl p ↦ elim (Bool-cases (f.lt t fs.time.current_time)) [
            | inl l ↦ inl (logical_time_already_passed, rw (time_advance_request, e, r, g, p, l))
            | inr l ↦ inr (
                subst (λ o. IsSettled f o.federation.federates)
                  (sym (time_advance_request_lem time m t fs e r g p l))
                  (request-IsSettled m.federate_handle fs t
                    (ieee.finite_ordered t (checked_time-ok time t r)) l
                    (get-IsTimed f m.federate_handle fs federation.federates timely.timed g)
                    timely))
          ]
        ]
      ]
    ]
  ]
