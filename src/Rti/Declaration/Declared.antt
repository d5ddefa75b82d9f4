-- ===== src/Rti/Declaration/Declared.antt =====
-- crates/hla-rti/src/dispatch/declaration.rs: what each handler may do to the federation.
use hla4_rs.Prelude.{ℕ, ◌≡◌, refl, List, true, Option, some, Result-cases, Option-cases, inl, inr}
use hla4_rs.Prelude.Eq.{nat_eq, pair_eq}
use hla4_rs.Prelude.Sets.{set_insert, set_remove}
use hla4_rs.Rti.State.{Federation, PubSubState}
use hla4_rs.Rti.Declaration.Handlers.{
  subscribed_attributes, unsubscribed_attributes, subscribed_interaction, unsubscribed_interaction,
}
use hla4_rs.Rti.Declaration.{extend_entry, remove_entry, update_pub_sub}
use hla4_rs.Rti.State.{SessionContext, Membership, Node}
use hla4_rs.Prelude.Map.{remove}
use hla4_rs.Rti.Subscriptions.Invariant.{subscribed}
use hla4_rs.Omt.Fom.{object_class_def, interaction_class_def}
use hla4_rs.Rti.Handles.{decoded, decode_object_class, decode_interaction_class, decode_handle_set}
use hla4_rs.Rti.Declaration.Handlers.{
  publish_object_class_attributes, unpublish_object_class_attributes, publish_interaction_class,
  unpublish_interaction_class, subscribe_object_class_attributes_inner,
  unsubscribe_object_class_attributes_inner, subscribe_interaction_class_inner,
  unsubscribe_interaction_class_inner,
}
use hla4_rs.Rti.Declaration.Classes.{unpublish_object_class, unsubscribe_object_class}
use hla4_rs.Rti.Declaration.Agreement.{
  Agrees, subscribed_attributes-Agrees, unsubscribed_attributes-Agrees,
  subscribed_interaction-Agrees, unsubscribed_interaction-Agrees, published-Agrees,
  removed_class-Agrees,
}

-- What a call may do to the federation.
pub data Declared {T : Type 0} (federation : Federation T) : Federation T → Type 0 where
  same : Declared federation federation
  published :
      (fh : ℕ) (g : PubSubState → PubSubState)
      → ((ps : PubSubState) → (g ps).subscribed_attrs ≡ ps.subscribed_attrs)
      → ((ps : PubSubState) → (g ps).subscribed_interactions ≡ ps.subscribed_interactions)
      → Declared federation (update_pub_sub fh g federation)
  attributes_on :
      (fh class : ℕ) (set : List ℕ)
      → Declared federation (subscribed_attributes federation fh class set)
  attributes_off :
      (fh class : ℕ) (set : List ℕ)
      → Declared federation (unsubscribed_attributes federation fh class set)
  interaction_on : (fh class : ℕ) → Declared federation (subscribed_interaction federation fh class)
  interaction_off :
      (fh class : ℕ) → Declared federation (unsubscribed_interaction federation fh class)

pub Declared-Agrees :
    {T : Type 0} {federation after : Federation T}
    → Agrees federation
    → Declared federation after
    → Agrees after
Declared-Agrees agrees same = agrees
Declared-Agrees {T} {federation} agrees (published fh g attrs ints) =
    published-Agrees federation fh g attrs ints agrees
Declared-Agrees {T} {federation} agrees (attributes_on fh class set) =
    subscribed_attributes-Agrees federation fh class set agrees
Declared-Agrees {T} {federation} agrees (attributes_off fh class set) =
    unsubscribed_attributes-Agrees federation fh class set agrees
Declared-Agrees {T} {federation} agrees (interaction_on fh class) =
    subscribed_interaction-Agrees federation fh class agrees
Declared-Agrees {T} {federation} agrees (interaction_off fh class) =
    unsubscribed_interaction-Agrees federation fh class agrees

module _ {T : Type 0} (ctx : SessionContext) (federation : Federation T) where
  pub publish_object_class_attributes-Declared :
      (class : Option (List ℕ)) (attrs : Option (List (List ℕ)))
      → Declared federation (publish_object_class_attributes ctx federation class attrs).federation
  unfolding publish_object_class_attributes
  publish_object_class_attributes-Declared class attrs = elim (Option-cases ctx.membership) [
    | inl e ↦ rw (publish_object_class_attributes, e) same
    | inr (m, e) ↦ elim (Option-cases (decoded decode_object_class class)) [
      | inl d ↦ rw (publish_object_class_attributes, e, d) same
      | inr (class', d) ↦ elim (Option-cases (object_class_def federation.fom class')) [
        | inl x ↦ rw (publish_object_class_attributes, e, d, x) same
        | inr (def, x) ↦ elim (Result-cases (decode_handle_set attrs)) [
          | inr (err', s) ↦ rw (publish_object_class_attributes, e, d, x, s) same
          | inl (set, s) ↦
              rw (publish_object_class_attributes, e, d, x, s)
                (published m.federate_handle
                  (λ ps. record ps { published_attrs = extend_entry class' set ps.published_attrs })
                  (λ ps. refl) (λ ps. refl))
        ]
      ]
    ]
  ]

  pub unpublish_object_class_attributes-Declared :
      (class : Option (List ℕ)) (attrs : Option (List (List ℕ)))
      → Declared federation
          (unpublish_object_class_attributes ctx federation class attrs).federation
  unfolding unpublish_object_class_attributes
  unpublish_object_class_attributes-Declared class attrs = elim (Option-cases ctx.membership) [
    | inl e ↦ rw (unpublish_object_class_attributes, e) same
    | inr (m, e) ↦ elim (Option-cases (decoded decode_object_class class)) [
      | inl d ↦ rw (unpublish_object_class_attributes, e, d) same
      | inr (class', d) ↦ elim (Result-cases (decode_handle_set attrs)) [
        | inr (err', s) ↦ rw (unpublish_object_class_attributes, e, d, s) same
        | inl (set, s) ↦
            rw (unpublish_object_class_attributes, e, d, s)
              (published m.federate_handle
                (λ ps. record ps { published_attrs = remove_entry class' set ps.published_attrs })
                (λ ps. refl) (λ ps. refl))
      ]
    ]
  ]

  pub publish_interaction_class-Declared :
      (class : Option (List ℕ))
      → Declared federation (publish_interaction_class ctx federation class).federation
  unfolding publish_interaction_class
  publish_interaction_class-Declared class = elim (Option-cases ctx.membership) [
    | inl e ↦ rw (publish_interaction_class, e) same
    | inr (m, e) ↦ elim (Option-cases (decoded decode_interaction_class class)) [
      | inl d ↦ rw (publish_interaction_class, e, d) same
      | inr (class', d) ↦ elim (Option-cases (interaction_class_def federation.fom class')) [
        | inl x ↦ rw (publish_interaction_class, e, d, x) same
        | inr (def, x) ↦
            rw (publish_interaction_class, e, d, x)
              (published m.federate_handle
                (λ ps. record ps {
                  published_interactions = set_insert class' ps.published_interactions;
                })
                (λ ps. refl) (λ ps. refl))
      ]
    ]
  ]

  pub unpublish_interaction_class-Declared :
      (class : Option (List ℕ))
      → Declared federation (unpublish_interaction_class ctx federation class).federation
  unfolding unpublish_interaction_class
  unpublish_interaction_class-Declared class = elim (Option-cases ctx.membership) [
    | inl e ↦ rw (unpublish_interaction_class, e) same
    | inr (m, e) ↦ elim (Option-cases (decoded decode_interaction_class class)) [
      | inl d ↦ rw (unpublish_interaction_class, e, d) same
      | inr (class', d) ↦
          rw (unpublish_interaction_class, e, d)
            (published m.federate_handle
              (λ ps. record ps {
                published_interactions = set_remove class' ps.published_interactions;
              })
              (λ ps. refl) (λ ps. refl))
    ]
  ]

module _ {T : Type 0} (node : Option Node) (ctx : SessionContext) (federation : Federation T) where
  pub subscribe_object_class_attributes_inner-Declared :
      (class : Option (List ℕ)) (attrs : Option (List (List ℕ)))
      → Declared federation
          (subscribe_object_class_attributes_inner node ctx federation class attrs).federation
  unfolding subscribe_object_class_attributes_inner
  subscribe_object_class_attributes_inner-Declared class attrs =
      elim (Option-cases ctx.membership) [
        | inl e ↦ rw (subscribe_object_class_attributes_inner, e) same
        | inr (m, e) ↦ elim (Option-cases (decoded decode_object_class class)) [
          | inl d ↦ rw (subscribe_object_class_attributes_inner, e, d) same
          | inr (class', d) ↦ elim (Option-cases (object_class_def federation.fom class')) [
            | inl x ↦ rw (subscribe_object_class_attributes_inner, e, d, x) same
            | inr (def, x) ↦ elim (Result-cases (decode_handle_set attrs)) [
              | inr (err', s) ↦ rw (subscribe_object_class_attributes_inner, e, d, x, s) same
              | inl (set, s) ↦
                  rw (subscribe_object_class_attributes_inner, e, d, x, s)
                    (attributes_on m.federate_handle class' set)
            ]
          ]
        ]
      ]

  pub unsubscribe_object_class_attributes_inner-Declared :
      (class : Option (List ℕ)) (attrs : Option (List (List ℕ)))
      → Declared federation
          (unsubscribe_object_class_attributes_inner node ctx federation class attrs).federation
  unfolding unsubscribe_object_class_attributes_inner
  unsubscribe_object_class_attributes_inner-Declared class attrs =
      elim (Option-cases ctx.membership) [
        | inl e ↦ rw (unsubscribe_object_class_attributes_inner, e) same
        | inr (m, e) ↦ elim (Option-cases (decoded decode_object_class class)) [
          | inl d ↦ rw (unsubscribe_object_class_attributes_inner, e, d) same
          | inr (class', d) ↦ elim (Result-cases (decode_handle_set attrs)) [
            | inr (err', s) ↦ rw (unsubscribe_object_class_attributes_inner, e, d, s) same
            | inl (set, s) ↦
                rw (unsubscribe_object_class_attributes_inner, e, d, s)
                  (attributes_off m.federate_handle class' set)
          ]
        ]
      ]

  pub subscribe_interaction_class_inner-Declared :
      (class : Option (List ℕ))
      → Declared federation (subscribe_interaction_class_inner node ctx federation class).federation
  unfolding subscribe_interaction_class_inner
  subscribe_interaction_class_inner-Declared class = elim (Option-cases ctx.membership) [
    | inl e ↦ rw (subscribe_interaction_class_inner, e) same
    | inr (m, e) ↦ elim (Option-cases (decoded decode_interaction_class class)) [
      | inl d ↦ rw (subscribe_interaction_class_inner, e, d) same
      | inr (class', d) ↦ elim (Option-cases (interaction_class_def federation.fom class')) [
        | inl x ↦ rw (subscribe_interaction_class_inner, e, d, x) same
        | inr (def, x) ↦
            rw (subscribe_interaction_class_inner, e, d, x)
              (interaction_on m.federate_handle class')
      ]
    ]
  ]

  pub unsubscribe_interaction_class_inner-Declared :
      (class : Option (List ℕ))
      → Declared federation
          (unsubscribe_interaction_class_inner node ctx federation class).federation
  unfolding unsubscribe_interaction_class_inner
  unsubscribe_interaction_class_inner-Declared class = elim (Option-cases ctx.membership) [
    | inl e ↦ rw (unsubscribe_interaction_class_inner, e) same
    | inr (m, e) ↦ elim (Option-cases (decoded decode_interaction_class class)) [
      | inl d ↦ rw (unsubscribe_interaction_class_inner, e, d) same
      | inr (class', d) ↦
          rw (unsubscribe_interaction_class_inner, e, d) (interaction_off m.federate_handle class')
    ]
  ]

module _ {T : Type 0} (ctx : SessionContext) (federation : Federation T) where
  pub unpublish_object_class-Declared :
      (class : Option (List ℕ))
      → Declared federation (unpublish_object_class ctx federation class).federation
  unfolding unpublish_object_class
  unpublish_object_class-Declared class = elim (Option-cases ctx.membership) [
    | inl e ↦ rw (unpublish_object_class, e) same
    | inr (m, e) ↦ elim (Option-cases (decoded decode_object_class class)) [
      | inl d ↦ rw (unpublish_object_class, e, d) same
      | inr (class', d) ↦
          rw (unpublish_object_class, e, d)
            (published m.federate_handle
              (λ ps. record ps { published_attrs = remove class' ps.published_attrs }) (λ ps. refl)
              (λ ps. refl))
    ]
  ]

  pub unsubscribe_object_class-Agrees :
      (class : Option (List ℕ))
      → Agrees federation
      → ((m : Membership) (c a f : ℕ)
          → ctx.membership ≡ some m
          → decoded decode_object_class class ≡ some c
          → subscribed federation.subscriptions c a f ≡ true
          → f ≡ m.federate_handle)
      → Agrees (unsubscribe_object_class ctx federation class).federation
  unfolding unsubscribe_object_class
  unsubscribe_object_class-Agrees class agrees alone = elim (Option-cases ctx.membership) [
    | inl e ↦ rw (unsubscribe_object_class, e) agrees
    | inr (m, e) ↦ elim (Option-cases (decoded decode_object_class class)) [
      | inl d ↦ rw (unsubscribe_object_class, e, d) agrees
      | inr (c, d) ↦
          rw (unsubscribe_object_class, e, d)
            (removed_class-Agrees federation m.federate_handle c (λ a f. alone m c a f e d) agrees)
    ]
  ]
