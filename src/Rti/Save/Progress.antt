-- ===== src/Rti/Save/Progress.antt =====
-- crates/hla-rti/src/dispatch/save.rs: a save ends when everyone has reported.
use mathlib.Core.Path.{ap, subst}
use mathlib.Core.Option.{none-ne-some}
use hla4_rs.Prelude.{
  ℕ, ◌≡◌, ◌≢◌, refl, sym, ◌∙◌, List, [], ◌∷◌, Bool, true, false, Option, none, some, ◌==◌, ==_iff,
  arith, if◌then◌else◌, Bool-cases, Option-cases, inl, inr, ◌⊎◌,
}
use hla4_rs.Prelude.Eq.{nat_eq}
use hla4_rs.Prelude.Map.{Map, get, insert, get-insert, KeysDistinct, KeysDistinct-insert}
use hla4_rs.Rti.Handler.{handle_of}
use hla4_rs.Rti.State.{
  Federation, SaveOperation, SaveStatus, save_complete, save_not_complete, Node, SessionContext,
}
use hla4_rs.Rti.Save.{is_done, all_done, progressed, federate_save_progressed}

-- A save that goes on lacks a report.
pub record IsOpen (save : SaveOperation) : Type 0 where
  pub distinct : KeysDistinct save.statuses
  pub lacks : all_done save.statuses ≡ false

abbrev pub SaveIsOpen : Option SaveOperation → Type 0
SaveIsOpen none = Unit
SaveIsOpen (some save) = IsOpen save

-- The federate takes part in the save and has not reported.
abbrev pub unreported : ℕ → Option SaveOperation → Bool
unreported f none = false
unreported f (some save) = elim (get f save.statuses) [
  | none ↦ false
  | some s ↦ if is_done s then false else true
]

get_behind :
    (fh : ℕ) (s : SaveStatus) (k : ℕ) (statuses : Map ℕ SaveStatus) {r : SaveStatus}
    → get fh statuses ≡ none
    → get k statuses ≡ some r
    → get k ((fh, s) ∷ statuses) ≡ some r
unfolding get
get_behind fh s k statuses {r} h g = elim (Bool-cases (fh == k)) [
  | inr e ↦ rw (get, e) g
  | inl e ↦ absurd (none-ne-some r (sym h ∙ (ap (λ x. get x statuses) ((==_iff fh k).0 e) ∙ g)))
]

-- Someone in an open save has not reported.
unreported_of_open :
    (statuses : Map ℕ SaveStatus)
    → KeysDistinct statuses
    → all_done statuses ≡ false
    → (f : ℕ) × (s : SaveStatus) × (get f statuses ≡ some s) × (is_done s ≡ false)
unfolding all_done get
unreported_of_open [] d h = cc
unreported_of_open ((fh, s) ∷ statuses) d h = elim (Bool-cases (is_done s)) [
  | inr e ↦ (fh, s, ground arith, e)
  | inl e ↦
      let later = unreported_of_open statuses d.1 (ground arith) in
      (later.0, later.1, get_behind fh s later.0 statuses d.0 later.2, later.3)
]

-- What a report may do to the save: nothing, record the report or end the save.
data SaveEffect (fh : Option ℕ) (save : Option SaveOperation) : Option SaveOperation → Type 0 where
  no_member : fh ≡ none → SaveEffect fh save save
  no_save : save ≡ none → SaveEffect fh save save
  ended : SaveEffect fh save none
  noted :
      (f : ℕ) (op : SaveOperation) (s : SaveStatus)
      → fh ≡ some f
      → save ≡ some op
      → is_done s ≡ true
      → all_done (insert f s op.statuses) ≡ false
      → SaveEffect fh save (some (record op { statuses = insert f s op.statuses }))

abbrev outcome_status : Bool → SaveStatus
outcome_status ok = if ok then save_complete else save_not_complete

outcome_status_done : (ok : Bool) → is_done (outcome_status ok) ≡ true
outcome_status_done true = refl
outcome_status_done false = refl

module _ {T : Type 0} (node : Node) where
  progressed-SaveEffect :
      (ctx : SessionContext) (federation : Federation T) (successfully : Bool)
      → SaveEffect
          (handle_of ctx.membership)
          federation.current_save
          (federate_save_progressed node ctx federation successfully).federation.current_save
  unfolding federate_save_progressed progressed
  progressed-SaveEffect ctx federation successfully = elim (Option-cases ctx.membership) [
    | inl e ↦ rw (federate_save_progressed, e) (no_member refl)
    | inr (m, e) ↦ elim (Option-cases federation.current_save) [
      | inl n ↦ rw (federate_save_progressed, e, n, n) (no_save refl)
      | inr (op, p) ↦
          elim (Bool-cases
            (all_done (insert m.federate_handle (outcome_status successfully) op.statuses))) [
              | inl a ↦ rw (federate_save_progressed, e, p, progressed, a) ended
              | inr a ↦
                  rw (federate_save_progressed, e, p, progressed, a)
                    (noted m.federate_handle op (outcome_status successfully) refl refl
                      (outcome_status_done successfully) a)
            ]
    ]
  ]

SaveEffect-SaveIsOpen :
    {fh : Option ℕ} {save save' : Option SaveOperation}
    → SaveIsOpen save
    → SaveEffect fh save save'
    → SaveIsOpen save'
SaveEffect-SaveIsOpen h (no_member e) = h
SaveEffect-SaveIsOpen h (no_save e) = h
SaveEffect-SaveIsOpen h ended = tt
SaveEffect-SaveIsOpen h (noted f op s e p d a) = record {
  distinct = KeysDistinct-insert f s op.statuses (subst SaveIsOpen p h).distinct;
  lacks = a;
}

SaveEffect-unreported :
    {fh : Option ℕ} {save save' : Option SaveOperation}
    → SaveEffect fh save save'
    → (f : ℕ) → unreported f save' ≡ true
    → (unreported f save ≡ true) × (fh ≢ some f)
SaveEffect-unreported {fh} {save} (no_member e) f h = (h, λ g. cc)
SaveEffect-unreported {fh} {save} (no_save e) f h = absurd (ground (arith, e))
SaveEffect-unreported {fh} {save} ended f h = absurd (ground arith)
SaveEffect-unreported {fh} {save} (noted f' op s e p d a) f h = (
  ground (arith, p, get-insert f' f s op.statuses),
  λ g. ground (arith, e, get-insert f' f s op.statuses, ==_iff f' f, d),
)

abbrev pub Progresses : ℕ → List (SessionContext × Bool) → Type 0
Progresses f [] = ⊥
Progresses f ((ctx, ok) ∷ calls) = (handle_of ctx.membership ≡ some f) ⊎ Progresses f calls

nobody_unreported :
    (save : Option SaveOperation)
    → SaveIsOpen save
    → ((f : ℕ) → unreported f save ≢ true)
    → save ≡ none
nobody_unreported none o h = refl
nobody_unreported (some op) o h =
    let (f, s, g, d) = unreported_of_open op.statuses o.distinct o.lacks in
    absurd (h f (ground (arith, g, d)))

module _ {T : Type 0} (node : Node) where
  -- Reports on a save by a sequence of sessions.
  unfoldable pub progresses : List (SessionContext × Bool) → Federation T → Federation T
  unfolding federate_save_progressed
  progresses [] federation = federation
  progresses ((ctx, ok) ∷ calls) federation =
      progresses calls (federate_save_progressed node ctx federation ok).federation

  -- A save ends once every federate in it that had not reported reports, in any order, among any
  -- other sessions' reports and successfully or not. Before, a save that went on had no federate
  -- twice and lacked some report.
  pub save_ends :
      (calls : List (SessionContext × Bool)) (federation : Federation T)
      → SaveIsOpen federation.current_save
      → ((f : ℕ) → unreported f federation.current_save ≡ true → Progresses f calls)
      → (progresses calls federation).current_save ≡ none
  unfolding progresses
  save_ends [] federation o h = nobody_unreported federation.current_save o h
  save_ends ((ctx, ok) ∷ calls) federation o h =
      let effect = progressed-SaveEffect node ctx federation ok in
      save_ends calls (federate_save_progressed node ctx federation ok).federation
        (SaveEffect-SaveIsOpen o effect)
        (λ f missed.
          let before = SaveEffect-unreported effect f missed in
          elim (h f before.0) [ inl e ↦ absurd (before.1 e) | inr later ↦ later ])
