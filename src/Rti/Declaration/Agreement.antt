-- ===== src/Rti/Declaration/Agreement.antt =====
-- crates/hla-rti/src/dispatch/declaration.rs: a federate's own record of its subscriptions and the
-- federation's matrix say the same.
use mathlib.Core.Option.{some-injective}
use hla4_rs.Prelude.{
  ℕ, ◌≡◌, ap, sym, ◌∙◌, List, true, some, ◌==◌, ==_iff, if◌then◌else◌, arith, Bool-cases,
  Option-cases, inl, inr,
}
use hla4_rs.Prelude.Eq.{nat_eq, pair_eq}
use hla4_rs.Prelude.Map.{get, modify, get-modify, remove}
use hla4_rs.Prelude.Sets.{
  contains, set_insert, set_remove, contains-set_insert, contains-set_remove,
}
use hla4_rs.Rti.Subscriptions.{remove_class}
use hla4_rs.Rti.Subscriptions.Invariant.{subscribed}
use hla4_rs.Rti.Subscriptions.ClassRemoval.{subscribed-remove_class}
use hla4_rs.Rti.State.{Federation, FederateSession, PubSubState}
use hla4_rs.Rti.Declaration.Handlers.{
  subscribed_attributes, unsubscribed_attributes, subscribed_interaction, unsubscribed_interaction,
}
use hla4_rs.Rti.Declaration.Classes.{removed_class}
use hla4_rs.Rti.Declaration.{extend_entry, remove_entry, update_pub_sub}
use hla4_rs.Rti.Declaration.Tables.{
  entry, contains-remove, contains-extend_entry, contains-remove_entry, subscribed-subscribe_all,
  subscribed-unsubscribe_all, by_interaction-subscribe_all, by_interaction-unsubscribe_all,
  contains-add_interaction, contains-drop_interaction, subscribed-add_interaction,
  subscribed-drop_interaction,
}

-- A member's own record of its subscriptions agrees with the matrix.
pub record Agrees {T : Type 0} (federation : Federation T) : Type 0 where
  pub attributes :
      (f c a : ℕ) (fs : FederateSession T)
      → get f federation.federates ≡ some fs
      → contains a (entry c fs.pub_sub.subscribed_attrs) ≡ subscribed federation.subscriptions c a f
  pub interactions :
      (f c : ℕ) (fs : FederateSession T)
      → get f federation.federates ≡ some fs
      → contains c fs.pub_sub.subscribed_interactions
        ≡ contains f (entry c federation.subscriptions.by_interaction)

module _ {T : Type 0} where
  abbrev with_pub_sub : (PubSubState → PubSubState) → FederateSession T → FederateSession T
  with_pub_sub g fs = record fs { pub_sub = g fs.pub_sub }

  -- A federate after an update was there before, with the update if it was meant.
  updated :
      (fh f : ℕ) (g : PubSubState → PubSubState) (federation : Federation T)
      (fs' : FederateSession T)
      → get f (update_pub_sub fh g federation).federates ≡ some fs'
      → (fs : FederateSession T) × (get f federation.federates ≡ some fs)
        × (fs'.pub_sub ≡ (if fh == f then g fs.pub_sub else fs.pub_sub))
  unfolding update_pub_sub
  updated fh f g federation fs' h = elim (Option-cases (get f federation.federates)) [
    | inl e ↦ absurd (ground (arith, e, get-modify fh f (with_pub_sub g) federation.federates))
    | inr (fs, e) ↦ (
      fs,
      e,
      elim (Bool-cases (fh == f)) [
        | inl y ↦
            let q : get f (modify fh (with_pub_sub g) federation.federates)
                ≡ some (with_pub_sub g fs) =
              rw (get-modify fh f (with_pub_sub g) federation.federates, y, e) in
            rw y (ap (λ x. x.pub_sub) (some-injective fs' (with_pub_sub g fs) (sym h ∙ q)))
        | inr y ↦
            let q : get f (modify fh (with_pub_sub g) federation.federates) ≡ some fs =
              rw (get-modify fh f (with_pub_sub g) federation.federates, y, e) in
            rw y (ap (λ x. x.pub_sub) (some-injective fs' fs (sym h ∙ q)))
      ],
    )
  ]

  -- What an update leaves of a federate's own record.
  own_attributes :
      (fh f : ℕ) (g : PubSubState → PubSubState) (federation : Federation T)
      (fs' : FederateSession T) (c a : ℕ)
      → get f (update_pub_sub fh g federation).federates ≡ some fs'
      → (fs : FederateSession T) × (get f federation.federates ≡ some fs)
        × (contains a (entry c fs'.pub_sub.subscribed_attrs) ≡ (
            if fh == f
            then contains a (entry c (g fs.pub_sub).subscribed_attrs)
            else contains a (entry c fs.pub_sub.subscribed_attrs)))
  own_attributes fh f g federation fs' c a h =
      let (fs, e, q) = updated fh f g federation fs' h in
      (fs, e, ap (λ ps. contains a (entry c ps.subscribed_attrs)) q ∙ ground arith)

  own_interactions :
      (fh f : ℕ) (g : PubSubState → PubSubState) (federation : Federation T)
      (fs' : FederateSession T) (c : ℕ)
      → get f (update_pub_sub fh g federation).federates ≡ some fs'
      → (fs : FederateSession T) × (get f federation.federates ≡ some fs)
        × (contains c fs'.pub_sub.subscribed_interactions ≡ (
            if fh == f
            then contains c (g fs.pub_sub).subscribed_interactions
            else contains c fs.pub_sub.subscribed_interactions))
  own_interactions fh f g federation fs' c h =
      let (fs, e, q) = updated fh f g federation fs' h in
      (fs, e, ap (λ ps. contains c ps.subscribed_interactions) q ∙ ground arith)

  pub subscribed_attributes-Agrees :
      (federation : Federation T) (fh class : ℕ) (set : List ℕ)
      → Agrees federation
      → Agrees (subscribed_attributes federation fh class set)
  unfolding subscribed_attributes
  subscribed_attributes-Agrees federation fh class set agrees = record {
    attributes = λ f c a fs' h.
        let (fs, e, q) =
          own_attributes fh f
            (λ ps. record ps { subscribed_attrs = extend_entry class set ps.subscribed_attrs })
            federation fs' c a h in
        ground (
          arith,
          q,
          agrees.attributes f c a fs e,
          contains-extend_entry class set fs.pub_sub.subscribed_attrs c a,
          subscribed-subscribe_all class fh set federation.subscriptions c a f,
        );
    interactions = λ f c fs' h.
        let (fs, e, q) =
          own_interactions fh f
            (λ ps. record ps { subscribed_attrs = extend_entry class set ps.subscribed_attrs })
            federation fs' c h in
        ground (
          arith,
          q,
          agrees.interactions f c fs e,
          by_interaction-subscribe_all class fh set federation.subscriptions,
        );
  }

  pub unsubscribed_attributes-Agrees :
      (federation : Federation T) (fh class : ℕ) (set : List ℕ)
      → Agrees federation
      → Agrees (unsubscribed_attributes federation fh class set)
  unfolding unsubscribed_attributes
  unsubscribed_attributes-Agrees federation fh class set agrees = record {
    attributes = λ f c a fs' h.
        let (fs, e, q) =
          own_attributes fh f
            (λ ps. record ps { subscribed_attrs = remove_entry class set ps.subscribed_attrs })
            federation fs' c a h in
        ground (
          arith,
          q,
          agrees.attributes f c a fs e,
          contains-remove_entry class set fs.pub_sub.subscribed_attrs c a,
          subscribed-unsubscribe_all class fh set federation.subscriptions c a f,
        );
    interactions = λ f c fs' h.
        let (fs, e, q) =
          own_interactions fh f
            (λ ps. record ps { subscribed_attrs = remove_entry class set ps.subscribed_attrs })
            federation fs' c h in
        ground (
          arith,
          q,
          agrees.interactions f c fs e,
          by_interaction-unsubscribe_all class fh set federation.subscriptions,
        );
  }

  pub subscribed_interaction-Agrees :
      (federation : Federation T) (fh class : ℕ)
      → Agrees federation
      → Agrees (subscribed_interaction federation fh class)
  unfolding subscribed_interaction
  subscribed_interaction-Agrees federation fh class agrees = record {
    attributes = λ f c a fs' h.
        let (fs, e, q) =
          own_attributes fh f
            (λ ps. record ps {
              subscribed_interactions = set_insert class ps.subscribed_interactions;
            })
            federation fs' c a h in
        ground (
          arith,
          q,
          agrees.attributes f c a fs e,
          subscribed-add_interaction class fh federation.subscriptions c a f,
        );
    interactions = λ f c fs' h.
        let (fs, e, q) =
          own_interactions fh f
            (λ ps. record ps {
              subscribed_interactions = set_insert class ps.subscribed_interactions;
            })
            federation fs' c h in
        ground (
          arith,
          q,
          agrees.interactions f c fs e,
          contains-set_insert class c fs.pub_sub.subscribed_interactions,
          contains-add_interaction class fh federation.subscriptions c f,
        );
  }

  pub unsubscribed_interaction-Agrees :
      (federation : Federation T) (fh class : ℕ)
      → Agrees federation
      → Agrees (unsubscribed_interaction federation fh class)
  unfolding unsubscribed_interaction
  unsubscribed_interaction-Agrees federation fh class agrees = record {
    attributes = λ f c a fs' h.
        let (fs, e, q) =
          own_attributes fh f
            (λ ps. record ps {
              subscribed_interactions = set_remove class ps.subscribed_interactions;
            })
            federation fs' c a h in
        ground (
          arith,
          q,
          agrees.attributes f c a fs e,
          subscribed-drop_interaction class fh federation.subscriptions c a f,
        );
    interactions = λ f c fs' h.
        let (fs, e, q) =
          own_interactions fh f
            (λ ps. record ps {
              subscribed_interactions = set_remove class ps.subscribed_interactions;
            })
            federation fs' c h in
        ground (
          arith,
          q,
          agrees.interactions f c fs e,
          contains-set_remove class c fs.pub_sub.subscribed_interactions,
          contains-drop_interaction class fh federation.subscriptions c f,
        );
  }

  -- A publication does not touch the subscriptions.
  pub published-Agrees :
      (federation : Federation T) (fh : ℕ) (g : PubSubState → PubSubState)
      → ((ps : PubSubState) → (g ps).subscribed_attrs ≡ ps.subscribed_attrs)
      → ((ps : PubSubState) → (g ps).subscribed_interactions ≡ ps.subscribed_interactions)
      → Agrees federation
      → Agrees (update_pub_sub fh g federation)
  unfolding update_pub_sub
  published-Agrees federation fh g attrs ints agrees = record {
    attributes = λ f c a fs' h.
        let (fs, e, q) = own_attributes fh f g federation fs' c a h in
        ground (arith, q, agrees.attributes f c a fs e, attrs fs.pub_sub);
    interactions = λ f c fs' h.
        let (fs, e, q) = own_interactions fh f g federation fs' c h in
        ground (arith, q, agrees.interactions f c fs e, ints fs.pub_sub);
  }

  -- The removal of a class from the matrix, where no other federate is subscribed to it.
  pub removed_class-Agrees :
      (federation : Federation T) (fh class : ℕ)
      → ((a f : ℕ) → subscribed federation.subscriptions class a f ≡ true → f ≡ fh)
      → Agrees federation
      → Agrees (removed_class federation fh class)
  unfolding removed_class
  removed_class-Agrees federation fh class alone agrees = record {
    attributes = λ f c a fs' h.
        let (fs, e, q) =
          own_attributes fh f
            (λ ps. record ps { subscribed_attrs = remove class ps.subscribed_attrs }) federation fs'
            c a h in
        ground (
          arith,
          q,
          agrees.attributes f c a fs e,
          contains-remove class fs.pub_sub.subscribed_attrs c a,
          subscribed-remove_class federation.subscriptions class c a f,
          alone a f,
          ==_iff fh f,
          ==_iff class c,
        );
    interactions = λ f c fs' h.
        let (fs, e, q) =
          own_interactions fh f
            (λ ps. record ps { subscribed_attrs = remove class ps.subscribed_attrs }) federation fs'
            c h in
        unfold remove_class in ground (arith, q, agrees.interactions f c fs e);
  }
