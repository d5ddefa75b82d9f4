-- ===== src/Rti/SyncPoints/Synchronized.antt =====
-- crates/hla-rti/src/dispatch/sync_points.rs: registration, and when the federation is synchronized.
use Prim.Native.String.{String}
use text.Mathlib.Text.{◌==◌ as str_eq}
use mathlib.Core.Path.{subst, sym}
use mathlib.Core.Option.{some-injective}
use hla4_rs.Prelude.{
  ℕ, ◌<◌, ◌≡◌, ◌≢◌, ◌∙◌, ◌↔◌, refl, List, [], ◌∷◌, Bool, true, false, not, ◌&&◌, Option, none, some,
  ==_iff, arith, length, Bool-cases, Option-cases, inl, inr, ◌⊎◌,
}
use hla4_rs.Prelude.Eq.{nat_eq, string_eq}
use hla4_rs.Prelude.Map.{Map, get, keys, get-insert, get-remove, KeysDistinct, beq_self}
use hla4_rs.Prelude.Sets.{contains, set_insert, contains-set_insert, Distinct}
use hla4_rs.Prelude.Counting.{Among, length-Among, keys-Distinct}
use hla4_rs.Rti.Handler.{handle_of}
use hla4_rs.Rti.State.{Federation, SyncPoint, Node, SessionContext}
use hla4_rs.Rti.SyncPoints.{
  participants_of, new_point, report, all_achieved, register_synchronization_point,
  synchronization_point_achieved,
}
use hla4_rs.Rti.SyncPoints.Waiting.{
  IsWaiting, IsWellFormed, AllWaiting, AllWaiting-insert, ReportEffect, unchanged, recorded,
  completed, achieved-ReportEffect, all_achieved_iff, report-IsWellFormed, ReportEffect-AllWaiting,
}

abbrev pub given : Option (List ℕ) → List ℕ
given none = []
given (some s) = s

participants_of-Distinct :
    {T : Type 0} (federation : Federation T) (subset : Option (List ℕ))
    → KeysDistinct federation.federates
    → Distinct (given subset)
    → Distinct (participants_of federation subset)
unfolding participants_of
participants_of-Distinct federation none k d = keys-Distinct federation.federates k
participants_of-Distinct federation (some []) k d = keys-Distinct federation.federates k
participants_of-Distinct federation (some (x ∷ s)) k d = d

keys-pos : {V : Type 0} (k : ℕ) (m : Map ℕ V) {v : V} → get k m ≡ some v → 0 < length (keys m)
unfolding get
keys-pos k [] h = cc
keys-pos k (p ∷ m) h = omega arith

participants_of-pos :
    {T : Type 0} (federation : Federation T) (subset : Option (List ℕ))
    → 0 < length (keys federation.federates)
    → 0 < length (participants_of federation subset)
unfolding participants_of
participants_of-pos federation none h = h
participants_of-pos federation (some []) h = h
participants_of-pos federation (some (x ∷ s)) h = omega arith

new_point-IsWaiting :
    (label : String) (tag participants : List ℕ)
    → Distinct participants
    → 0 < length participants
    → IsWaiting (new_point label tag participants)
unfolding new_point contains
new_point-IsWaiting label tag participants d h = record {
  well_formed = record {
    participants_distinct = d;
    achieved_distinct = tt;
    achieved_among = λ x hx. cc;
  };
  lacks = h;
}

-- The report of `f` on `sp`, named otherwise.
all_in :
    (f f' : ℕ) (ok : Bool) (sp sp' : SyncPoint)
    → f' ≡ f
    → sp' ≡ sp
    → contains f sp.participants ≡ true
    → IsWellFormed sp
    → (all_achieved (report f' ok sp') ≡ true) ↔ Among sp.participants (set_insert f sp.achieved)
unfolding report
all_in f f' ok sp sp' ef es c w =
    subst
      (λ x.
        (all_achieved (report x ok sp') ≡ true) ↔ Among sp.participants (set_insert f sp.achieved))
      (sym ef)
      (subst
        (λ x.
          (all_achieved (report f ok x) ≡ true) ↔ Among sp.participants (set_insert f sp.achieved))
        (sym es) (all_achieved_iff (report f ok sp) (report-IsWellFormed f ok sp c w)))

ReportEffect-synchronized :
    {label : String} {points points' : Map String SyncPoint} (f : ℕ) (sp : SyncPoint)
    → get label points ≡ some sp
    → contains f sp.participants ≡ true
    → IsWellFormed sp
    → ReportEffect label (some f) points points'
    → (get label points' ≡ none) ↔ Among sp.participants (set_insert f sp.achieved)
ReportEffect-synchronized {label} {points} f sp hp hc w (unchanged g) =
    absurd (ground (arith, g f sp refl hp))
ReportEffect-synchronized {label} {points} f sp hp hc w (recorded f' ok sp' e p c a) =
    let iff =
      all_in f f' ok sp sp' (some-injective f' f (sym e)) (some-injective sp' sp (sym p ∙ hp)) hc
        w in
    (
      (λ h.
          absurd
            (ground (arith, beq_self label, get-insert label label (report f' ok sp') points))),
      (λ h. absurd (ground (arith, iff.1 h))),
    )
ReportEffect-synchronized {label} {points} f sp hp hc w (completed f' ok sp' e p c a) =
    let iff =
      all_in f f' ok sp sp' (some-injective f' f (sym e)) (some-injective sp' sp (sym p ∙ hp)) hc
        w in
    ((λ h. iff.0 a), (λ h. ground (arith, beq_self label, get-remove label label points)))

module _ {T : Type 0} (node : Node) (ctx : SessionContext) (federation : Federation T) where
  -- A registration in a federation with a member, none of them twice, of any label and with any
  -- set of participants leaves every registered point well formed and waiting for at least one participant, if that
  -- was so before.
  pub register-AllWaiting :
      (label : String) (tag : List ℕ) (subset : Option (List ℕ))
      → 0 < length (keys federation.federates)
      → KeysDistinct federation.federates
      → Distinct (given subset)
      → AllWaiting federation.sync_points
      → AllWaiting
          (register_synchronization_point node ctx federation label tag
            subset).federation.sync_points
  unfolding register_synchronization_point
  register-AllWaiting label tag subset joined kd sd all = elim (Option-cases ctx.membership) [
    | inl e ↦ rw (register_synchronization_point, e) all
    | inr (m, e) ↦ elim (Bool-cases (str_eq label "")) [
      | inl b ↦ rw (register_synchronization_point, e, b) all
      | inr b ↦ elim (Option-cases (get label federation.sync_points)) [
        | inr (sp, p) ↦ rw (register_synchronization_point, e, b, p) all
        | inl p ↦
            rw (register_synchronization_point, e, b, p)
              (AllWaiting-insert label (new_point label tag (participants_of federation subset))
                federation.sync_points
                (new_point-IsWaiting label tag (participants_of federation subset)
                  (participants_of-Distinct federation subset kd sd)
                  (participants_of-pos federation subset joined))
                all)
      ]
    ]
  ]

  -- A participant's report on a registered and well formed point takes the point out of the
  -- federation exactly when every participant has then reported.
  pub synchronized_iff :
      (label : String) (successfully : Bool) (f : ℕ) (sp : SyncPoint)
      → handle_of ctx.membership ≡ some f
      → get label federation.sync_points ≡ some sp
      → contains f sp.participants ≡ true
      → IsWellFormed sp
      → (get label
            (synchronization_point_achieved node ctx federation label
              successfully).federation.sync_points
          ≡ none)
        ↔ Among sp.participants (set_insert f sp.achieved)
  synchronized_iff label successfully f sp hm hp hc w = ReportEffect-synchronized f sp hp hc w (
      subst
        (λ h.
          ReportEffect label h federation.sync_points
            (synchronization_point_achieved node ctx federation label
              successfully).federation.sync_points)
        hm (achieved-ReportEffect node ctx federation label successfully))

-- The federate has not reported yet on the registered point that it is a participant of.
abbrev pub missing : ℕ → String → Map String SyncPoint → Bool
missing f label points = elim (get label points) [
  | none ↦ false
  | some sp ↦ contains f sp.participants && not (contains f sp.achieved)
]

ReportEffect-missing :
    {label : String} {fh : Option ℕ} {points points' : Map String SyncPoint}
    → ReportEffect label fh points points'
    → (f : ℕ) → missing f label points' ≡ true
    → (missing f label points ≡ true) × (fh ≢ some f)
unfolding report
ReportEffect-missing {label} {fh} {points} (unchanged g) f h = (
  h,
  elim (Option-cases (get label points)) [
    | inl n ↦ absurd (ground arith)
    | inr (sp, p) ↦ λ e. ground (arith, g f sp e p)
  ],
)
ReportEffect-missing {label} {fh} {points} (recorded f' ok sp e p c a) f h = ground (
  arith,
  e,
  p,
  beq_self label,
  get-insert label label (report f' ok sp) points,
  contains-set_insert f' f sp.achieved,
  ==_iff f' f,
)
ReportEffect-missing {label} {fh} {points} (completed f' ok sp e p c a) f h =
    absurd (ground (arith, beq_self label, get-remove label label points))

-- The federate reports in the sequence.
abbrev pub Reports : ℕ → List (SessionContext × Bool) → Type 0
Reports f [] = ⊥
Reports f ((ctx, ok) ∷ calls) = (handle_of ctx.membership ≡ some f) ⊎ Reports f calls

nobody_missing :
    (label : String) (points : Map String SyncPoint)
    → AllWaiting points
    → ((f : ℕ) → missing f label points ≢ true)
    → get label points ≡ none
nobody_missing label points all h = elim (Option-cases (get label points)) [
  | inl n ↦ n
  | inr (sp, p) ↦
      let w = (all label sp p).well_formed in
      let bound =
        length-Among sp.participants sp.achieved w.participants_distinct w.achieved_distinct
          (λ x hx. elim (Bool-cases (contains x sp.achieved)) [
            | inl y ↦ y
            | inr y ↦ absurd (h x (ground (arith, p)))
          ]) in
      absurd (omega (arith, bound, (all label sp p).lacks))
]

module _ {T : Type 0} (node : Node) (label : String) where
  -- Reports on the label by a sequence of sessions.
  unfoldable pub reports : List (SessionContext × Bool) → Federation T → Federation T
  unfolding synchronization_point_achieved
  reports [] federation = federation
  reports ((ctx, ok) ∷ calls) federation =
      reports calls (synchronization_point_achieved node ctx federation label ok).federation

  -- Once every participant that had not reported on a point reports, in any order, among any other
  -- sessions' reports and successfully or not, the point is gone: the federation is synchronized.
  -- Before, every registered point was well formed and waited for some report.
  pub reports_complete :
      (calls : List (SessionContext × Bool)) (federation : Federation T)
      → AllWaiting federation.sync_points
      → ((f : ℕ) → missing f label federation.sync_points ≡ true → Reports f calls)
      → get label (reports calls federation).sync_points ≡ none
  unfolding reports
  reports_complete [] federation all h = nobody_missing label federation.sync_points all h
  reports_complete ((ctx, ok) ∷ calls) federation all h =
      let effect = achieved-ReportEffect node ctx federation label ok in
      reports_complete calls
        (synchronization_point_achieved node ctx federation label ok).federation
        (ReportEffect-AllWaiting all effect)
        (λ f missed.
          let before = ReportEffect-missing effect f missed in
          elim (h f before.0) [ inl e ↦ absurd (before.1 e) | inr later ↦ later ])
