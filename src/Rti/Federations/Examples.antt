-- ===== src/Rti/Federations/Examples.antt =====
-- A federation that is created, joined, left and destroyed.
use Prim.Native.String.{String}
use hla4_rs.Prelude.{
  ℕ, ◌≡◌, refl, sym, ap, ◌∙◌, if◌then◌else◌, List, [], ◌∷◌, Option, none, some, ok, err, map,
  Bool-cases, inl, inr,
}
use hla4_rs.Prelude.Eq.{string_eq, nat_eq}
use hla4_rs.Prelude.Map.{get, insert, remove, contains_key, modify}
use hla4_rs.Omt.Fom.{FomModule}
use hla4_rs.Rti.Exception.{federates_currently_joined, federate_name_already_in_use}
use hla4_rs.Rti.State.{Federation, exception_data, destroy_federation_execution_response}
use hla4_rs.Rti.Defaults.{new_federation}
use hla4_rs.Rti.Samples.{empty_fom}
use hla4_rs.Rti.Federations.{
  Registry, Session, create_federation_inner, destroy_federation_execution, join, resign,
  federate_name_in_use, decode_fom_modules, fom_for,
}
use hla4_rs.Rti.Federations.MemberNames.{
  MembersDistinct, join_named, after_call, member_names_distinct,
}
use mathlib.Core.Option.{none-ne-some, some-injective}
use mathlib.Core.Path.{subst}

abbrev no_federations : Registry ℕ
no_federations = record { federations = []; default_fom = empty_fom }

abbrev sushi : Federation ℕ
sushi = new_federation "Sushi" empty_fom

abbrev registry : Registry ℕ
registry = record no_federations { federations = ("Sushi", sushi) ∷ [] }

abbrev session : ℕ → Session
session n = record { session_id = n; joined = none }

abbrev parse : List ℕ → Option FomModule
parse content = none

abbrev federate_name : ℕ → String
federate_name h = "federate-00000002"

create_test : create_federation_inner parse no_federations "Sushi" [] ≡ ok registry
unfolding create_federation_inner contains_key decode_fom_modules fom_for insert
create_test = refl

-- A requested name is taken once, but the name of an unnamed federate is not checked against it.
join_test :
    let first = join federate_name 0 registry (session 7) (some "federate-00000002") "Sushi" in
    let again = join federate_name 0 first.node (session 8) (some "federate-00000002") "Sushi" in
    let unnamed = join federate_name 0 first.node (session 9) none "Sushi" in
    (again.result ≡ err federate_name_already_in_use)
    × (map (λ p. map (λ q. q.1.name) p.1.federates) unnamed.node.federations
        ≡ ("federate-00000002" ∷ "federate-00000002" ∷ []) ∷ [])
unfolding join get insert federate_name_in_use
join_test = (refl, refl)

leave_test :
    let first = join federate_name 0 registry (session 7) none "Sushi" in
    let left = resign first.node first.ctx in
    ((destroy_federation_execution first.node "Sushi").1
      ≡ exception_data federates_currently_joined)
    × ((destroy_federation_execution left.0 "Sushi").1 ≡ destroy_federation_execution_response)
unfolding join get insert resign modify remove destroy_federation_execution
leave_test = (refl, refl)

registry-MembersDistinct : MembersDistinct registry
unfolding get
registry-MembersDistinct g f h i j fs gs hi hj p = elim (Bool-cases (string_eq.beq "Sushi" g)) [
  | inl y ↦
      let empty : f.federates ≡ [] =
        ap {A = Federation ℕ} (λ x. x.federates)
          (sym (some-injective sushi f (sym (ap (λ b. if b then some sushi else none) y) ∙ h))) in
      absurd (none-ne-some fs (subst (λ m. get i m ≡ some fs) empty hi))
  | inr y ↦ absurd (none-ne-some f (sym (ap (λ b. if b then some sushi else none) y) ∙ h))
]

member_names_distinct_example :
    MembersDistinct (after_call federate_name 0 registry (session 7) (join_named "waiter" "Sushi"))
member_names_distinct_example =
    member_names_distinct federate_name 0 registry (session 7) (join_named "waiter" "Sushi")
      registry-MembersDistinct
