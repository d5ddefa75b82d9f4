-- ===== src/Rti/Save/Opening.antt =====
-- crates/hla-rti/src/dispatch/save.rs: a save that goes on always lacks a report.
use Prim.Native.String.{String}
use text.Mathlib.Text.{◌==◌ as str_eq}
use mathlib.Core.Path.{subst}
use hla4_rs.Prelude.{
  ℕ, ◌<◌, ◌≡◌, refl, List, [], ◌∷◌, false, none, arith, length, Bool-cases, Option-cases, inl, inr,
}
use hla4_rs.Prelude.Eq.{nat_eq}
use hla4_rs.Prelude.Map.{Map, get, insert, keys, KeysDistinct, KeysDistinct-insert}
use hla4_rs.Rti.State.{
  Federation, SaveStatus, initiated, begun_save, save_complete, save_not_complete, Node,
  SessionContext,
}
use hla4_rs.Rti.Save.{all_done, all_initiated, request_federation_save, federate_save_begun}
use hla4_rs.Rti.Save.Progress.{SaveIsOpen}

get-all_initiated :
    {V : Type 0} (k : ℕ) (federates : Map ℕ V)
    → get k federates ≡ none
    → get k (all_initiated (keys federates)) ≡ none
unfolding get all_initiated
get-all_initiated k [] h = refl
get-all_initiated k ((fh, fs) ∷ federates) h = ground (arith, get-all_initiated k federates)

all_initiated-KeysDistinct :
    {V : Type 0} (federates : Map ℕ V)
    → KeysDistinct federates
    → KeysDistinct (all_initiated (keys federates))
unfolding all_initiated
all_initiated-KeysDistinct [] d = tt
all_initiated-KeysDistinct ((fh, fs) ∷ federates) d =
    (get-all_initiated fh federates d.0, all_initiated-KeysDistinct federates d.1)

all_done-all_initiated :
    (participants : List ℕ)
    → 0 < length participants
    → all_done (all_initiated participants) ≡ false
unfolding all_done all_initiated
all_done-all_initiated [] h = absurd (omega arith)
all_done-all_initiated (fh ∷ participants) h = refl

-- The begun status is no report.
all_done-insert_begun :
    (fh : ℕ) (statuses : Map ℕ SaveStatus) → all_done (insert fh begun_save statuses) ≡ false
unfolding all_done insert
all_done-insert_begun fh [] = refl
all_done-insert_begun fh ((k, s) ∷ statuses) = ground (arith, all_done-insert_begun fh statuses)

module _ {T : Type 0} (node : Node) (ctx : SessionContext) (federation : Federation T) where
  request-SaveIsOpen :
      (label : String)
      → 0 < length (keys federation.federates)
      → KeysDistinct federation.federates
      → SaveIsOpen federation.current_save
      → SaveIsOpen (request_federation_save node ctx federation label).federation.current_save
  unfolding request_federation_save
  request-SaveIsOpen label joined d o = elim (Option-cases ctx.membership) [
    | inl e ↦ rw (request_federation_save, e) o
    | inr (m, e) ↦ elim (Bool-cases (str_eq label "")) [
      | inl b ↦ rw (request_federation_save, e, b) o
      | inr b ↦ elim (Option-cases federation.current_save) [
        | inr (op, p) ↦ rw (request_federation_save, e, b, p) o
        | inl p ↦
            rw (request_federation_save, e, b, p)
              (record {
                distinct = all_initiated-KeysDistinct federation.federates d;
                lacks = all_done-all_initiated (keys federation.federates) joined;
              })
      ]
    ]
  ]

  begun-SaveIsOpen :
      SaveIsOpen federation.current_save
      → SaveIsOpen (federate_save_begun ctx federation).federation.current_save
  unfolding federate_save_begun
  begun-SaveIsOpen o = elim (Option-cases ctx.membership) [
    | inl e ↦ rw (federate_save_begun, e) o
    | inr (m, e) ↦ elim (Option-cases federation.current_save) [
      | inl p ↦ rw (federate_save_begun, e, p) o
      | inr (op, p) ↦ elim (Option-cases (get m.federate_handle op.statuses)) [
        | inl g ↦ rw (federate_save_begun, e, p, g) o
        | inr (initiated, g) ↦
            rw (federate_save_begun, e, p, g)
              (record {
                distinct =
                    KeysDistinct-insert m.federate_handle begun_save op.statuses
                      (subst SaveIsOpen p o).distinct;
                lacks = all_done-insert_begun m.federate_handle op.statuses;
              })
        | inr (begun_save, g) ↦ rw (federate_save_begun, e, p, g) o
        | inr (save_complete, g) ↦ rw (federate_save_begun, e, p, g) o
        | inr (save_not_complete, g) ↦ rw (federate_save_begun, e, p, g) o
      ]
    ]
  ]

  -- After a request for a save, and after a report that one has begun, a save that goes on still
  -- lacks a federate's report, if the federation has members and that was so before.
  pub save_opens :
      (label : String)
      → 0 < length (keys federation.federates)
      → KeysDistinct federation.federates
      → SaveIsOpen federation.current_save
      → SaveIsOpen (request_federation_save node ctx federation label).federation.current_save
        × SaveIsOpen (federate_save_begun ctx federation).federation.current_save
  save_opens label joined d o = (request-SaveIsOpen label joined d o, begun-SaveIsOpen o)
