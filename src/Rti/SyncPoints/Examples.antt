-- ===== src/Rti/SyncPoints/Examples.antt =====
-- Two federates and a point that both must achieve.
use hla4_rs.Prelude.{
  ℕ, zero, suc, ◌≡◌, ◌↔◌, refl, List, [], ◌∷◌, Bool, true, false, none, arith, inl, inr,
}
use hla4_rs.Prelude.Eq.{nat_eq, string_eq}
use hla4_rs.Prelude.Map.{get, insert}
use hla4_rs.Prelude.Sets.{contains, set_insert}
use hla4_rs.Prelude.Counting.{Among}
use hla4_rs.Rti.State.{Federation, SyncPoint, SessionContext}
use hla4_rs.Rti.Samples.{node, two_federates, session_of}
use hla4_rs.Rti.SyncPoints.{register_synchronization_point, synchronization_point_achieved}
use hla4_rs.Rti.SyncPoints.Waiting.{IsWaiting, AllWaiting, AllWaiting-insert, achieved-AllWaiting}
use hla4_rs.Rti.SyncPoints.Synchronized.{
  register-AllWaiting, synchronized_iff, Reports, reports, reports_complete, missing,
}

abbrev point : SyncPoint
point = record {
  label = "ready";
  tag = [];
  participants = 1 ∷ 2 ∷ [];
  achieved = [];
  failed_to_sync = [];
}

abbrev announced : Federation ℕ
announced = record two_federates { sync_points = ("ready", point) ∷ [] }

point-IsWaiting : IsWaiting point
unfolding contains
point-IsWaiting = record {
  well_formed = record {
    participants_distinct = (refl, (refl, tt));
    achieved_distinct = tt;
    achieved_among = λ x h. cc;
  };
  lacks = omega arith;
}

announced-AllWaiting : AllWaiting announced.sync_points
unfolding get insert
announced-AllWaiting = AllWaiting-insert "ready" point [] point-IsWaiting (λ l s h. cc)

achieved-AllWaiting_example :
    AllWaiting
      (synchronization_point_achieved node
        (session_of 1)
        announced
        "ready"
        true).federation.sync_points
achieved-AllWaiting_example =
    achieved-AllWaiting node (session_of 1) announced "ready" true announced-AllWaiting

register-AllWaiting_example :
    AllWaiting
      (register_synchronization_point node
        (session_of 1)
        announced
        "go"
        []
        none).federation.sync_points
unfolding get
register-AllWaiting_example =
    register-AllWaiting node (session_of 1) announced "go" [] none (omega arith) (refl, (refl, tt))
      tt announced-AllWaiting

synchronized_iff_example :
    (get "ready"
        (synchronization_point_achieved node
          (session_of 1)
          announced
          "ready"
          true).federation.sync_points
      ≡ none)
    ↔ Among {A = ℕ} (1 ∷ 2 ∷ []) (set_insert 1 [])
unfolding get contains
synchronized_iff_example =
    synchronized_iff node (session_of 1) announced "ready" true 1 point refl refl refl
      point-IsWaiting.well_formed

abbrev both : List (SessionContext × Bool)
both = (session_of 2, false) ∷ (session_of 1, true) ∷ []

both_report : (f : ℕ) → missing f "ready" announced.sync_points ≡ true → Reports f both
unfolding get contains
both_report zero h = absurd (ground arith)
both_report (suc zero) h = inr (inl refl)
both_report (suc (suc zero)) h = inl refl
both_report (suc (suc (suc f))) h = absurd (ground arith)

reports_complete_example : get "ready" (reports node "ready" both announced).sync_points ≡ none
reports_complete_example =
    reports_complete node "ready" both announced announced-AllWaiting both_report
