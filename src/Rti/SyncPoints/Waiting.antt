-- ===== src/Rti/SyncPoints/Waiting.antt =====
-- crates/hla-rti/src/dispatch/sync_points.rs: every registered point waits for someone.
use Prim.Native.String.{String}
use text.Mathlib.Text.{◌==◌ as str_eq}
use mathlib.Core.Path.{subst}
use mathlib.Core.Option.{some-injective}
use hla4_rs.Prelude.{
  ℕ, ◌<◌, ◌≡◌, ◌↔◌, refl, Bool, true, false, Option, some, ==_iff, arith, length, Bool-cases,
  Option-cases, inl, inr,
}
use hla4_rs.Prelude.Eq.{nat_eq, string_eq}
use hla4_rs.Prelude.Map.{Map, get, insert, remove, get-insert, get-remove}
use hla4_rs.Prelude.Sets.{contains, set_insert, contains-set_insert, Distinct, Distinct-set_insert}
use hla4_rs.Prelude.Counting.{Among, length-Among, Among-of_length}
use hla4_rs.Rti.State.{Federation, SyncPoint, Node, SessionContext}
use hla4_rs.Rti.Handler.{handle_of}
use hla4_rs.Rti.SyncPoints.{report, all_achieved, synchronization_point_achieved, after_report}

-- A point's sets are sets, and only participants have reported.
pub record IsWellFormed (sp : SyncPoint) : Type 0 where
  pub participants_distinct : Distinct sp.participants
  pub achieved_distinct : Distinct sp.achieved
  pub achieved_among : Among sp.achieved sp.participants

-- A point that is still registered also lacks a report.
pub record IsWaiting (sp : SyncPoint) : Type 0 where
  pub well_formed : IsWellFormed sp
  pub lacks : length sp.achieved < length sp.participants

abbrev pub AllWaiting : Map String SyncPoint → Type 0
AllWaiting points = (label : String) (sp : SyncPoint) → get label points ≡ some sp → IsWaiting sp

pub report-IsWellFormed :
    (fh : ℕ) (successfully : Bool) (sp : SyncPoint)
    → contains fh sp.participants ≡ true
    → IsWellFormed sp
    → IsWellFormed (report fh successfully sp)
unfolding report
report-IsWellFormed fh successfully sp h w = record {
  participants_distinct = w.participants_distinct;
  achieved_distinct = Distinct-set_insert fh sp.achieved w.achieved_distinct;
  achieved_among =
      λ x hx. ground (arith, contains-set_insert fh x sp.achieved, ==_iff fh x, w.achieved_among x);
}

-- One that is not complete after a report waits on.
pub report-IsWaiting :
    (fh : ℕ) (successfully : Bool) (sp : SyncPoint)
    → contains fh sp.participants ≡ true
    → IsWellFormed sp
    → all_achieved (report fh successfully sp) ≡ false
    → IsWaiting (report fh successfully sp)
unfolding report all_achieved
report-IsWaiting fh successfully sp h w h_open =
    let w' = report-IsWellFormed fh successfully sp h w in
    record {
      well_formed = w';
      lacks = ground (
        arith,
        length-Among (set_insert fh sp.achieved) sp.participants w'.achieved_distinct
            w'.participants_distinct w'.achieved_among,
      );
    }

-- All have reported when the counts agree, and only then.
pub all_achieved_iff :
    (sp : SyncPoint)
    → IsWellFormed sp
    → (all_achieved sp ≡ true) ↔ Among sp.participants sp.achieved
unfolding all_achieved
all_achieved_iff sp w = (
  (λ h.
      Among-of_length sp.achieved sp.participants w.achieved_distinct w.participants_distinct
        w.achieved_among (ground arith)),
  (λ h.
      let up =
        length-Among sp.achieved sp.participants w.achieved_distinct w.participants_distinct
          w.achieved_among in
      let down =
        length-Among sp.participants sp.achieved w.participants_distinct w.achieved_distinct h in
      ground arith),
)

pub AllWaiting-insert :
    (label : String) (sp : SyncPoint) (points : Map String SyncPoint)
    → IsWaiting sp
    → AllWaiting points
    → AllWaiting (insert label sp points)
AllWaiting-insert label sp points w all l s h = elim (Bool-cases (str_eq label l)) [
  | inl e ↦ subst IsWaiting (some-injective sp s (ground (arith, get-insert label l sp points))) w
  | inr e ↦ all l s (ground (arith, get-insert label l sp points))
]

AllWaiting-remove :
    (label : String) (points : Map String SyncPoint)
    → AllWaiting points
    → AllWaiting (remove label points)
AllWaiting-remove label points all l s h = all l s (ground (arith, get-remove label l points))

-- What an achieved report may do to the registered points: nothing, record the report of a
-- participant, or complete the point.
pub data ReportEffect (label : String) (fh : Option ℕ) (points : Map String SyncPoint)
    : Map String SyncPoint → Type 0 where
  unchanged :
      ((f : ℕ) (sp : SyncPoint)
        → fh ≡ some f
        → get label points ≡ some sp
        → contains f sp.participants ≡ false)
      → ReportEffect label fh points points
  recorded :
      (f : ℕ) (successfully : Bool) (sp : SyncPoint)
      → fh ≡ some f
      → get label points ≡ some sp
      → contains f sp.participants ≡ true
      → all_achieved (report f successfully sp) ≡ false
      → ReportEffect label fh points (insert label (report f successfully sp) points)
  completed :
      (f : ℕ) (successfully : Bool) (sp : SyncPoint)
      → fh ≡ some f
      → get label points ≡ some sp
      → contains f sp.participants ≡ true
      → all_achieved (report f successfully sp) ≡ true
      → ReportEffect label fh points (remove label points)

pub ReportEffect-AllWaiting :
    {label : String} {fh : Option ℕ} {points points' : Map String SyncPoint}
    → AllWaiting points
    → ReportEffect label fh points points'
    → AllWaiting points'
ReportEffect-AllWaiting {label} {fh} {points} all (unchanged _) = all
ReportEffect-AllWaiting {label} {fh} {points} all (recorded f ok sp _ p c a) =
    AllWaiting-insert label (report f ok sp) points
      (report-IsWaiting f ok sp c (all label sp p).well_formed a) all
ReportEffect-AllWaiting {label} {fh} {points} all (completed f ok sp _ p c a) =
    AllWaiting-remove label points all

module _ {T : Type 0} (node : Node) (ctx : SessionContext) (federation : Federation T) where
  pub achieved-ReportEffect :
      (label : String) (successfully : Bool)
      → ReportEffect label
          (handle_of ctx.membership)
          federation.sync_points
          (synchronization_point_achieved node ctx federation label
            successfully).federation.sync_points
  unfolding synchronization_point_achieved after_report
  achieved-ReportEffect label successfully = elim (Option-cases ctx.membership) [
    | inl e ↦ rw (synchronization_point_achieved, e) (unchanged (λ f sp h g. cc))
    | inr (m, e) ↦ elim (Option-cases (get label federation.sync_points)) [
      | inl n ↦ rw (synchronization_point_achieved, e, n) (unchanged (λ f sp h g. cc))
      | inr (sp, p) ↦ elim (Bool-cases (contains m.federate_handle sp.participants)) [
        | inr c ↦ rw (synchronization_point_achieved, e, p, c) (unchanged (λ f s h g. ground arith))
        | inl c ↦ elim (Bool-cases (all_achieved (report m.federate_handle successfully sp))) [
          | inl a ↦
              rw (synchronization_point_achieved, after_report, e, p, c, a)
                (completed m.federate_handle successfully sp refl p c a)
          | inr a ↦
              rw (synchronization_point_achieved, after_report, e, p, c, a)
                (recorded m.federate_handle successfully sp refl p c a)
        ]
      ]
    ]
  ]

  -- An achieved report, whoever makes it and on whatever label, leaves every registered point
  -- well formed and waiting for at least one participant, if that was so before.
  pub achieved-AllWaiting :
      (label : String) (successfully : Bool)
      → AllWaiting federation.sync_points
      → AllWaiting
          (synchronization_point_achieved node ctx federation label
            successfully).federation.sync_points
  achieved-AllWaiting label successfully all =
      ReportEffect-AllWaiting all (achieved-ReportEffect label successfully)
