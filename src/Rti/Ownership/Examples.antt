-- ===== src/Rti/Ownership/Examples.antt =====
-- An instance with two attributes, one of them owned by federate 2.
use hla4_rs.Prelude.{ℕ, ◌≡◌, refl, List, [], ◌∷◌, some, ok, ◌==◌, ◌&&◌}
use hla4_rs.Prelude.Eq.{nat_eq}
use hla4_rs.Prelude.Map.{get, insert}
use hla4_rs.Prelude.Sets.{contains, set_insert}
use hla4_rs.Rti.Handles.{
  decode_object_instance, decode_handle_set, decode_handles, decode_attribute,
}
use hla4_rs.Rti.State.{Federation, ObjectInstance}
use hla4_rs.Rti.Samples.{node, session_of, two_federates}
use hla4_rs.Rti.Ownership.{acquire, release, dispatch_ownership}
use hla4_rs.Rti.Ownership.Owners.{secured_owner, divested_owner}
use hla4_rs.Rti.Ownership.Transfers.{owner_of}
use hla4_rs.Rti.Ownership.Calls.{OwnerStep, dispatch_ownership-OwnerStep, owners_exact}

abbrev glass : ObjectInstance
glass = record {
  handle = 7;
  class = 1;
  name = "glass";
  registrar = 2;
  attribute_owners = (5, 2) ∷ [];
  attribute_regions = [];
}

abbrev federation : Federation ℕ
federation = record two_federates { object_instances = (7, glass) ∷ [] }

abbrev seven : List ℕ
seven = 0 ∷ 0 ∷ 0 ∷ 0 ∷ 0 ∷ 0 ∷ 0 ∷ 7 ∷ []

abbrev asked : List ℕ
asked = 5 ∷ 6 ∷ []

abbrev five_and_six : List (List ℕ)
five_and_six = (0 ∷ 0 ∷ 0 ∷ 5 ∷ []) ∷ (0 ∷ 0 ∷ 0 ∷ 6 ∷ []) ∷ []

-- The free attribute is taken, the owned one is not.
taken_test :
    (owner_of
        (dispatch_ownership node
          (session_of 1)
          federation
          (acquire (some seven) (some five_and_six) [])).federation
        7
        5
      ≡ some 2)
    × (owner_of
          (dispatch_ownership node
            (session_of 1)
            federation
            (acquire (some seven) (some five_and_six) [])).federation
          7
          6
        ≡ some 1)
unfolding dispatch_ownership get insert decode_handle_set
taken_test = (refl, refl)

dispatch_ownership-OwnerStep_example : OwnerStep (some 1) (owner_of federation 7 6) (
    owner_of
      (dispatch_ownership node
        (session_of 1)
        federation
        (acquire (some seven) (some five_and_six) [])).federation
      7
      6)
dispatch_ownership-OwnerStep_example =
    dispatch_ownership-OwnerStep node (session_of 1) federation
      (acquire (some seven) (some five_and_six) []) 7 6

seven_known : get 7 federation.object_instances ≡ some glass
unfolding get
seven_known = refl

seven_decodes : decode_object_instance seven ≡ ok 7
unfolding decode_object_instance
seven_decodes = refl

set_decodes : decode_handle_set (some five_and_six) ≡ ok asked
unfolding decode_handle_set decode_handles decode_attribute set_insert
set_decodes = refl

owners_exact_example :
    (owner_of
        (dispatch_ownership node
          (session_of 2)
          federation
          (acquire (some seven) (some five_and_six) [])).federation
        7
        5
      ≡ secured_owner 2 ((7 == 7) && contains 5 asked) (owner_of federation 7 5))
    × (owner_of
          (dispatch_ownership node
            (session_of 2)
            federation
            (release (some seven) (some five_and_six) [])).federation
          7
          5
        ≡ divested_owner 2 ((7 == 7) && contains 5 asked) (owner_of federation 7 5))
owners_exact_example =
    owners_exact node (session_of 2) federation
      (record { federate_handle = 2; federate_name = "member" }) 7 seven (some five_and_six) asked
      glass [] refl seven_decodes set_decodes seven_known 7 5
