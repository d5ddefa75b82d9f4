-- ===== src/Rti/Ownership/Transfers.antt =====
-- crates/hla-rti/src/dispatch/ownership.rs: what each handler writes.
use hla4_rs.Prelude.{ℕ, ◌≡◌, refl, List, Option, some, Result-cases, Option-cases, inl, inr}
use hla4_rs.Prelude.Eq.{nat_eq}
use hla4_rs.Prelude.Map.{get}
use hla4_rs.Omt.Fom.{and_then}
use hla4_rs.Rti.Handles.{decoded, decode_object_instance, decode_attribute, decode_handle_set}
use hla4_rs.Rti.State.{Federation, ObjectInstance, Node, SessionContext, Membership}
use hla4_rs.Rti.Ownership.{
  secure, divest, set_owners, attribute_ownership_acquisition_if_available,
  unconditional_attribute_ownership_divestiture, is_attribute_owned_by_federate,
  query_attribute_ownership, OwnershipCall, is_owned, query, acquire, release, acquire_negotiated,
  release_negotiated, release_if_wanted, deny_release, cancel_release, cancel_acquisition,
  confirm_release, dispatch_ownership,
}

-- The owner of an attribute of an instance.
abbrev pub owner_of : {T : Type 0} → Federation T → ℕ → ℕ → Option ℕ
owner_of federation h a =
    and_then (get h federation.object_instances) (λ inst. get a inst.attribute_owners)

-- What a call may do to the owners of the attributes.
pub data Transfer {T : Type 0} (federation : Federation T) (membership : Option Membership)
    : Federation T → Type 0 where
  untouched : Transfer federation membership federation
  taken :
      (m : Membership) (h : ℕ) (inst : ObjectInstance) (attrs : List ℕ)
      → membership ≡ some m
      → get h federation.object_instances ≡ some inst
      → Transfer federation membership (
          set_owners h inst
            (secure m.federate_handle attrs inst.attribute_owners).owners
            federation)
  given_up :
      (m : Membership) (h : ℕ) (inst : ObjectInstance) (attrs : List ℕ)
      → membership ≡ some m
      → get h federation.object_instances ≡ some inst
      → Transfer federation membership (
          set_owners h inst
            (divest m.federate_handle attrs inst.attribute_owners).owners
            federation)

module _ {T : Type 0} (ctx : SessionContext) (federation : Federation T) where
  is_attribute_owned_by_federate-Transfer :
      (h a : Option (List ℕ))
      → Transfer federation ctx.membership
          (is_attribute_owned_by_federate ctx federation h a).federation
  unfolding is_attribute_owned_by_federate
  is_attribute_owned_by_federate-Transfer h a = elim (Option-cases ctx.membership) [
    | inl e ↦ rw (is_attribute_owned_by_federate, e) untouched
    | inr (m, e) ↦ elim (Option-cases (decoded decode_object_instance h)) [
      | inl d ↦ rw (is_attribute_owned_by_federate, e, d) untouched
      | inr (i, d) ↦ elim (Option-cases (decoded decode_attribute a)) [
        | inl x ↦ rw (is_attribute_owned_by_federate, e, d, x) untouched
        | inr (b, x) ↦ elim (Option-cases (get i federation.object_instances)) [
          | inl g ↦ rw (is_attribute_owned_by_federate, e, d, x, g) untouched
          | inr (inst, g) ↦ rw (is_attribute_owned_by_federate, e, d, x, g) untouched
        ]
      ]
    ]
  ]

module _ {T : Type 0} (node : Node) (ctx : SessionContext) (federation : Federation T) where
  query_attribute_ownership-Transfer :
      (h : Option (List ℕ)) (attrs : Option (List (List ℕ)))
      → Transfer federation ctx.membership
          (query_attribute_ownership node ctx federation h attrs).federation
  unfolding query_attribute_ownership
  query_attribute_ownership-Transfer h attrs = elim (Option-cases ctx.membership) [
    | inl e ↦ rw (query_attribute_ownership, e) untouched
    | inr (m, e) ↦ elim (Option-cases (decoded decode_object_instance h)) [
      | inl d ↦ rw (query_attribute_ownership, e, d) untouched
      | inr (i, d) ↦ elim (Result-cases (decode_handle_set attrs)) [
        | inr (x', x) ↦ rw (query_attribute_ownership, e, d, x) untouched
        | inl (set, x) ↦ elim (Option-cases (get i federation.object_instances)) [
          | inl g ↦ rw (query_attribute_ownership, e, d, x, g) untouched
          | inr (inst, g) ↦ rw (query_attribute_ownership, e, d, x, g) untouched
        ]
      ]
    ]
  ]

  attribute_ownership_acquisition_if_available-Transfer :
      (h : Option (List ℕ)) (attrs : Option (List (List ℕ))) (tag : List ℕ)
      → Transfer federation ctx.membership
          (attribute_ownership_acquisition_if_available node ctx federation h attrs tag).federation
  unfolding attribute_ownership_acquisition_if_available
  attribute_ownership_acquisition_if_available-Transfer h attrs tag =
      elim (Option-cases ctx.membership) [
        | inl e ↦ rw (attribute_ownership_acquisition_if_available, e) untouched
        | inr (m, e) ↦ elim (Option-cases (decoded decode_object_instance h)) [
          | inl d ↦ rw (attribute_ownership_acquisition_if_available, e, d) untouched
          | inr (i, d) ↦ elim (Result-cases (decode_handle_set attrs)) [
            | inr (x', x) ↦ rw (attribute_ownership_acquisition_if_available, e, d, x) untouched
            | inl (set, x) ↦ elim (Option-cases (get i federation.object_instances)) [
              | inl g ↦ rw (attribute_ownership_acquisition_if_available, e, d, x, g) untouched
              | inr (inst, g) ↦
                  rw (attribute_ownership_acquisition_if_available, e, d, x, g)
                    (taken m i inst set refl g)
            ]
          ]
        ]
      ]

  unconditional_attribute_ownership_divestiture-Transfer :
      (h : Option (List ℕ)) (attrs : Option (List (List ℕ))) (tag : List ℕ)
      → Transfer federation ctx.membership
          (unconditional_attribute_ownership_divestiture node ctx federation h attrs tag).federation
  unfolding unconditional_attribute_ownership_divestiture
  unconditional_attribute_ownership_divestiture-Transfer h attrs tag =
      elim (Option-cases ctx.membership) [
        | inl e ↦ rw (unconditional_attribute_ownership_divestiture, e) untouched
        | inr (m, e) ↦ elim (Option-cases (decoded decode_object_instance h)) [
          | inl d ↦ rw (unconditional_attribute_ownership_divestiture, e, d) untouched
          | inr (i, d) ↦ elim (Result-cases (decode_handle_set attrs)) [
            | inr (x', x) ↦ rw (unconditional_attribute_ownership_divestiture, e, d, x) untouched
            | inl (set, x) ↦ elim (Option-cases (get i federation.object_instances)) [
              | inl g ↦ rw (unconditional_attribute_ownership_divestiture, e, d, x, g) untouched
              | inr (inst, g) ↦
                  rw (unconditional_attribute_ownership_divestiture, e, d, x, g)
                    (given_up m i inst set refl g)
            ]
          ]
        ]
      ]

  pub dispatch_ownership-Transfer :
      (call : OwnershipCall)
      → Transfer federation ctx.membership (dispatch_ownership node ctx federation call).federation
  unfolding dispatch_ownership
  dispatch_ownership-Transfer (is_owned h a) =
      is_attribute_owned_by_federate-Transfer ctx federation h a
  dispatch_ownership-Transfer (query h attrs) = query_attribute_ownership-Transfer h attrs
  dispatch_ownership-Transfer (acquire h attrs tag) =
      attribute_ownership_acquisition_if_available-Transfer h attrs tag
  dispatch_ownership-Transfer (release h attrs tag) =
      unconditional_attribute_ownership_divestiture-Transfer h attrs tag
  dispatch_ownership-Transfer (acquire_negotiated h attrs tag) =
      attribute_ownership_acquisition_if_available-Transfer h attrs tag
  dispatch_ownership-Transfer (release_negotiated h attrs tag) =
      unconditional_attribute_ownership_divestiture-Transfer h attrs tag
  dispatch_ownership-Transfer (release_if_wanted h attrs tag) =
      unconditional_attribute_ownership_divestiture-Transfer h attrs tag
  dispatch_ownership-Transfer deny_release = untouched
  dispatch_ownership-Transfer cancel_release = untouched
  dispatch_ownership-Transfer cancel_acquisition = untouched
  dispatch_ownership-Transfer confirm_release = untouched
