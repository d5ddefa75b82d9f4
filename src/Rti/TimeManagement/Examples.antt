-- ===== src/Rti/TimeManagement/Examples.antt =====
-- Two federates that regulate and are constrained, over whole numbers.
use hla4_rs.Prelude.{◌≡◌, refl, [], ◌∷◌, true, none, some, arith, ◌⊎◌}
use hla4_rs.Prelude.Eq.{nat_eq}
use hla4_rs.Prelude.Map.{get, KeysDistinct}
use hla4_rs.Rti.Exception.{HlaException}
use hla4_rs.Rti.State.{Federation, FederateSession, TimeState}
use hla4_rs.Rti.Handler.{Outcome, exception_variant}
use hla4_rs.Rti.Samples.{node, session_of, member, federation_of}
use hla4_rs.Rti.Wholes.{Whole, whole_le, whole_to, wholes, wholes-IsIeee}
use hla4_rs.Rti.Time.{lbts, to_grant, try_grant_pending_advances}
use hla4_rs.Rti.Time.Bound.{lbts_lower}
use hla4_rs.Rti.Time.Waves.{AllTimed}
use hla4_rs.Rti.Time.Grants.{grants_complete, grants_safe, grants_advance}
use hla4_rs.Rti.TimeManagement.{time_advance_request}
use hla4_rs.Rti.TimeManagement.Timely.{IsTimely}
use hla4_rs.Rti.TimeManagement.Settled.{IsSettled, time_advance_request_settles}

-- Both federates regulate and are constrained; the first's grant lets the second be granted.
abbrev first : TimeState Whole
first = record {
  is_regulating = true;
  is_constrained = true;
  current_time = some 0;
  lookahead = some 2;
  pending_advance = some (some 2);
}

abbrev second : TimeState Whole
second = record {
  is_regulating = true;
  is_constrained = true;
  current_time = some 0;
  lookahead = some 3;
  pending_advance = some (some 3);
}

abbrev federation : Federation Whole
federation = federation_of ((1, member 1 first) ∷ (2, member 2 second) ∷ [])

distinct : KeysDistinct federation.federates
unfolding get
distinct = (refl, (refl, tt))

timed : AllTimed wholes federation.federates
timed = (
  record { ordered = refl; lookahead_finite = refl; forward = λ t h. ground arith },
  (record { ordered = refl; lookahead_finite = refl; forward = λ t h. ground arith }, tt),
)

abbrev left : Federation Whole
left = (try_grant_pending_advances wholes node federation).0

grants_complete_example : to_grant wholes (lbts wholes left.federates) left.federates ≡ []
grants_complete_example = grants_complete wholes wholes-IsIeee refl node federation distinct timed

abbrev second_left : FederateSession Whole
second_left = member 2 (record second { current_time = some 3; pending_advance = none })

grants_safe_example :
    (second_left ≡ member 2 second) ⊎ (whole_le (some 3) (lbts wholes left.federates) ≡ true)
unfolding get try_grant_pending_advances
grants_safe_example =
    grants_safe wholes wholes-IsIeee refl node federation distinct timed 2 (member 2 second)
      second_left refl refl refl

grants_advance_example :
    (whole_le (lbts wholes federation.federates) (lbts wholes left.federates) ≡ true)
    × AllTimed wholes left.federates
grants_advance_example = grants_advance wholes wholes-IsIeee refl node federation distinct timed

lbts_lower_example : whole_le (lbts wholes federation.federates) (some 3) ≡ true
unfolding get
lbts_lower_example =
    lbts_lower wholes wholes-IsIeee 2 (member 2 second) federation.federates refl refl refl refl

-- The first federate has no pending advance and asks for time 2.
abbrev idle_first : Federation Whole
idle_first =
    federation_of
      ((1, member 1 (record first { pending_advance = none })) ∷ (2, member 2 second) ∷ [])

idle_first-IsTimely : IsTimely wholes idle_first.federates
unfolding get
idle_first-IsTimely = record {
  distinct = (refl, (refl, tt));
  timed =
      (record { ordered = refl; lookahead_finite = refl; forward = λ t h. cc }, (timed.1.0, tt));
}

abbrev answer : Outcome Whole
answer = time_advance_request wholes node (session_of 1) idle_first (some (whole_to (some 2)))

time_advance_request_settles_example :
    ((kind : HlaException) × (answer ≡ exception_variant idle_first kind))
    ⊎ IsSettled wholes answer.federation.federates
time_advance_request_settles_example =
    time_advance_request_settles wholes wholes-IsIeee refl node (session_of 1) idle_first
      (some (whole_to (some 2))) idle_first-IsTimely
