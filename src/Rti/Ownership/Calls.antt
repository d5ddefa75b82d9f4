-- ===== src/Rti/Ownership/Calls.antt =====
-- crates/hla-rti/src/dispatch/ownership.rs: what each call does to the owners.
use mathlib.Core.Path.{subst}
use hla4_rs.Prelude.{
  ℕ, ◌≡◌, refl, sym, ap, List, Bool, true, false, ◌&&◌, Option, none, some, ok, ◌==◌, ==_iff,
  if◌then◌else◌, Bool-cases, inl, inr,
}
use hla4_rs.Prelude.Eq.{nat_eq}
use hla4_rs.Rti.Handler.{handle_of}
use hla4_rs.Prelude.Map.{Map, get, get-insert}
use hla4_rs.Prelude.Sets.{contains}
use hla4_rs.Rti.Handles.{ok_of, decode_object_instance, decode_handle_set}
use hla4_rs.Rti.State.{Federation, ObjectInstance, Node, SessionContext, Membership}
use hla4_rs.Rti.Ownership.{
  secure, divest, set_owners, attribute_ownership_acquisition_if_available,
  unconditional_attribute_ownership_divestiture, OwnershipCall, acquire, release,
  dispatch_ownership,
}
use hla4_rs.Rti.Ownership.Owners.{secured_owner, divested_owner, get-secure, get-divest}
use hla4_rs.Rti.Ownership.Transfers.{
  owner_of, Transfer, untouched, taken, given_up, dispatch_ownership-Transfer,
}

-- How one call may change the owner of one attribute: not at all, or the caller gives up what it
-- owns, or the caller takes what nobody owns.
pub data OwnerStep (caller : Option ℕ) : Option ℕ → Option ℕ → Type 0 where
  kept : (o : Option ℕ) → OwnerStep caller o o
  released : (fh : ℕ) → caller ≡ some fh → OwnerStep caller (some fh) none
  acquired : (fh : ℕ) → caller ≡ some fh → OwnerStep caller none (some fh)

secured_owner-idle : (fh : ℕ) (o : Option ℕ) → secured_owner fh false o ≡ o
secured_owner-idle fh none = refl
secured_owner-idle fh (some o) = refl

divested_owner-idle : (fh : ℕ) (o : Option ℕ) → divested_owner fh false o ≡ o
divested_owner-idle fh none = refl
divested_owner-idle fh (some o) = refl

secured_owner-OwnerStep :
    (fh : ℕ) (asked : Bool) (o : Option ℕ) → OwnerStep (some fh) o (secured_owner fh asked o)
secured_owner-OwnerStep fh asked (some o) = kept (some o)
secured_owner-OwnerStep fh true none = acquired fh refl
secured_owner-OwnerStep fh false none = kept none

divested_owner-OwnerStep :
    (fh : ℕ) (asked : Bool) (o : Option ℕ) → OwnerStep (some fh) o (divested_owner fh asked o)
divested_owner-OwnerStep fh asked none = kept none
divested_owner-OwnerStep fh false (some o) = kept (some o)
divested_owner-OwnerStep fh true (some o) = elim (Bool-cases (o == fh)) [
  | inl y ↦
      rw (y) (
        subst (λ x. OwnerStep (some fh) (some x) none) (sym ((==_iff o fh).0 y)) (released fh refl))
  | inr y ↦ rw (y) (kept (some o))
]

module _ {T : Type 0} (federation : Federation T) (h : ℕ) (inst : ObjectInstance)
    (owners : Map ℕ ℕ) where
  owner_of-set_owners :
      (i a : ℕ)
      → owner_of (set_owners h inst owners federation) i a
        ≡ (if h == i then get a owners else owner_of federation i a)
  unfolding set_owners
  owner_of-set_owners i a =
      rw (get-insert h i (record inst { attribute_owners = owners }) federation.object_instances)
        elim (Bool-cases (h == i)) [ inl y ↦ rw (y) refl | inr y ↦ rw (y) refl ]

  known_owner :
      get h federation.object_instances ≡ some inst
      → (i a : ℕ) → (h == i) ≡ true
      → owner_of federation i a ≡ get a inst.attribute_owners
  known_owner known i a y =
      rw (ap (λ x. owner_of federation x a) (sym ((==_iff h i).0 y)), known) refl

  set_owners_exact :
      (f : Bool → Option ℕ → Option ℕ) (set : List ℕ)
      → get h federation.object_instances ≡ some inst
      → ((o : Option ℕ) → f false o ≡ o)
      → ((b : ℕ) → get b owners ≡ f (contains b set) (get b inst.attribute_owners))
      → (i a : ℕ)
      → owner_of (set_owners h inst owners federation) i a
        ≡ f ((h == i) && contains a set) (owner_of federation i a)
  set_owners_exact f set known idle written i a = elim (Bool-cases (h == i)) [
    | inl y ↦ rw (owner_of-set_owners i a, y, known_owner known i a y) (written a)
    | inr y ↦ rw (owner_of-set_owners i a, y) (sym (idle (owner_of federation i a)))
  ]

  -- A write of one instance's owners is such a step everywhere when it is one on the instance.
  set_owners-OwnerStep :
      (caller : Option ℕ)
      → get h federation.object_instances ≡ some inst
      → ((a : ℕ) → OwnerStep caller (get a inst.attribute_owners) (get a owners))
      → (i a : ℕ)
      → OwnerStep caller
          (owner_of federation i a)
          (owner_of (set_owners h inst owners federation) i a)
  set_owners-OwnerStep caller known step i a = elim (Bool-cases (h == i)) [
    | inl y ↦ rw (owner_of-set_owners i a, y, known_owner known i a y) (step a)
    | inr y ↦ rw (owner_of-set_owners i a, y) (kept (owner_of federation i a))
  ]

Transfer-OwnerStep :
    {T : Type 0} {federation after : Federation T} {membership : Option Membership}
    → Transfer federation membership after
    → (i a : ℕ) → OwnerStep (handle_of membership) (owner_of federation i a) (owner_of after i a)
Transfer-OwnerStep {T} {federation} untouched i a = kept (owner_of federation i a)
Transfer-OwnerStep {T} {federation} (taken m h inst attrs e known) i a = rw (e) (
    set_owners-OwnerStep federation h inst
      (secure m.federate_handle attrs inst.attribute_owners).owners (some m.federate_handle) known
      (λ b. rw (get-secure m.federate_handle attrs inst.attribute_owners b) (
        secured_owner-OwnerStep m.federate_handle (contains b attrs) (get b inst.attribute_owners)))
      i a)
Transfer-OwnerStep {T} {federation} (given_up m h inst attrs e known) i a = rw (e) (
    set_owners-OwnerStep federation h inst
      (divest m.federate_handle attrs inst.attribute_owners).owners (some m.federate_handle) known
      (λ b. rw (get-divest m.federate_handle attrs inst.attribute_owners b) (
        divested_owner-OwnerStep m.federate_handle (contains b attrs)
          (get b inst.attribute_owners)))
      i a)

module _ {T : Type 0} (node : Node) (ctx : SessionContext) (federation : Federation T) where
  -- Every call of ownership management, whether it succeeds or not, keeps the owner of each
  -- attribute of each instance, unless the caller owned the attribute and nobody does then, or
  -- nobody owned it and the caller does then.
  pub dispatch_ownership-OwnerStep :
      (call : OwnershipCall) (i a : ℕ)
      → OwnerStep
          (handle_of ctx.membership)
          (owner_of federation i a)
          (owner_of (dispatch_ownership node ctx federation call).federation i a)
  dispatch_ownership-OwnerStep call i a =
      Transfer-OwnerStep (dispatch_ownership-Transfer node ctx federation call) i a

  -- When the caller is a member, the instance is known and the attributes decode, an acquisition
  -- leaves the caller as the owner of exactly those of them that had none, and a divestiture takes
  -- the owner of exactly those of them that the caller owned; no other attribute is touched.
  pub owners_exact :
      (m : Membership) (h : ℕ) (bytes : List ℕ) (attrs : Option (List (List ℕ))) (set : List ℕ)
      (inst : ObjectInstance) (tag : List ℕ)
      → ctx.membership ≡ some m
      → decode_object_instance bytes ≡ ok h
      → decode_handle_set attrs ≡ ok set
      → get h federation.object_instances ≡ some inst
      → (i a : ℕ)
      → (owner_of
            (dispatch_ownership node ctx federation (acquire (some bytes) attrs tag)).federation
            i
            a
          ≡ secured_owner m.federate_handle ((h == i) && contains a set) (owner_of federation i a))
        × (owner_of
              (dispatch_ownership node ctx federation (release (some bytes) attrs tag)).federation
              i
              a
            ≡ divested_owner m.federate_handle
                ((h == i) && contains a set)
                (owner_of federation i a))
  unfolding dispatch_ownership attribute_ownership_acquisition_if_available
      unconditional_attribute_ownership_divestiture
  owners_exact m h bytes attrs set inst tag e d s known i a = (
    rw (attribute_ownership_acquisition_if_available, e, ap ok_of d, s, known)
        (set_owners_exact federation h inst
          (secure m.federate_handle set inst.attribute_owners).owners
          (secured_owner m.federate_handle) set known (secured_owner-idle m.federate_handle)
          (get-secure m.federate_handle set inst.attribute_owners) i a),
    rw (unconditional_attribute_ownership_divestiture, e, ap ok_of d, s, known)
        (set_owners_exact federation h inst
          (divest m.federate_handle set inst.attribute_owners).owners
          (divested_owner m.federate_handle) set known (divested_owner-idle m.federate_handle)
          (get-divest m.federate_handle set inst.attribute_owners) i a),
  )
