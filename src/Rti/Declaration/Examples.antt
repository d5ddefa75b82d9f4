-- ===== src/Rti/Declaration/Examples.antt =====
-- A federate subscribes to two attributes of a class.
use mathlib.Core.Option.{some-injective}
use hla4_rs.Prelude.{
  ℕ, ◌≡◌, refl, ap, ◌∙◌, List, [], ◌∷◌, true, false, none, some, ◌==◌, ==_iff, arith, Bool-cases,
  inl, inr,
}
use hla4_rs.Prelude.Eq.{nat_eq}
use hla4_rs.Prelude.Map.{get}
use hla4_rs.Prelude.Sets.{contains}
use hla4_rs.Omt.Fom.{ObjectClassDef}
use hla4_rs.Rti.State.{Federation, FederateSession}
use hla4_rs.Rti.Samples.{node, session_of, two_federates, no_pub_sub, empty_fom, member, at_zero}
use hla4_rs.Rti.Declaration.Dispatch.{
  DeclarationCall, subscribe_attributes, unsubscribe_class, dispatch_declaration,
}
use hla4_rs.Rti.Subscriptions.{subscribers}
use hla4_rs.Rti.Declaration.Classes.{unsubscribe_object_class}
use hla4_rs.Rti.Declaration.Agreement.{Agrees}
use hla4_rs.Rti.Subscriptions.Invariant.{subscribed}
use hla4_rs.Rti.State.{Membership}
use hla4_rs.Rti.Declaration.Calls.{dispatch_declaration-Agrees}

abbrev drink : ObjectClassDef
drink = record { name = "Drink"; parent = none; attributes = []; semantics = none }

abbrev federation : Federation ℕ
federation = record two_federates { fom = record empty_fom { object_classes = (1, drink) ∷ [] } }

fresh :
    (f : ℕ) (fs : FederateSession ℕ)
    → get f federation.federates ≡ some fs
    → fs.pub_sub ≡ no_pub_sub
unfolding get
fresh f fs h = elim (Bool-cases (1 == f)) [
  | inl y ↦ ap (λ x. x.pub_sub) (some-injective fs (member 1 at_zero) (ground arith))
  | inr y ↦ elim (Bool-cases (2 == f)) [
    | inl z ↦ ap (λ x. x.pub_sub) (some-injective fs (member 2 at_zero) (ground arith))
    | inr z ↦ absurd (ground arith)
  ]
]

federation-Agrees : Agrees federation
unfolding get contains
federation-Agrees = record {
  attributes = λ f c a fs h. rw (fresh f fs h) refl;
  interactions = λ f c fs h. rw (fresh f fs h) refl;
}

abbrev first_attribute : List (List ℕ)
first_attribute = (0 ∷ 0 ∷ 0 ∷ 5 ∷ []) ∷ []

abbrev first_class : List ℕ
first_class = 0 ∷ 0 ∷ 0 ∷ 1 ∷ []

abbrev alone : Membership
alone = record { federate_handle = 1; federate_name = "member" }

abbrev subscription : DeclarationCall
subscription = subscribe_attributes (some first_class) (some first_attribute)

abbrev one_subscribed : Federation ℕ
one_subscribed = (dispatch_declaration node (session_of 1) federation subscription).federation

one_subscribed-Agrees : Agrees one_subscribed
one_subscribed-Agrees =
    dispatch_declaration-Agrees node (session_of 1) federation subscription federation-Agrees
      (λ class m c a f e. cc)

-- Only federate 1 is subscribed.
only_one : (c a f : ℕ) → subscribed one_subscribed.subscriptions c a f ≡ true → f ≡ 1
unfolding dispatch_declaration contains get
only_one c a f h = ground (arith, ==_iff 1 f)

dispatch_declaration-Agrees_example :
    Agrees
      (dispatch_declaration node
        (session_of 1)
        one_subscribed
        (unsubscribe_class (some first_class))).federation
dispatch_declaration-Agrees_example =
    dispatch_declaration-Agrees node (session_of 1) one_subscribed
      (unsubscribe_class (some first_class)) one_subscribed-Agrees
      (λ class m c a f same e d h.
        only_one c a f h ∙ ap (λ x. x.federate_handle) (some-injective alone m e))

abbrev both_subscribed : Federation ℕ
both_subscribed = (dispatch_declaration node (session_of 2) one_subscribed subscription).federation

-- When federate 1 unsubscribes from the class, the subscription of federate 2 leaves the matrix.
unsubscribe_object_class_test :
    (contains 2 (subscribers both_subscribed.subscriptions 1 5) ≡ true)
    × (contains 2 (
          subscribers
            (unsubscribe_object_class
              (session_of 1)
              both_subscribed
              (some first_class)).federation.subscriptions
            1
            5)
        ≡ false)
unfolding dispatch_declaration unsubscribe_object_class contains
unsubscribe_object_class_test = (refl, refl)
