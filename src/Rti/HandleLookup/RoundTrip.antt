-- ===== src/Rti/HandleLookup/RoundTrip.antt =====
-- crates/hla-rti/src/dispatch/handle_lookup.rs over a model of crates/hla-omt/src/merge.rs: a name
-- leads to a handle and the handle back to the name.
use Prim.Native.String.{String}
use mathlib.Core.Path.{subst}
use hla4_rs.Prelude.{
  ℕ, ◌+◌, ◌^◌, ◌<◌, ◌≡◌, refl, sym, ap, ◌∙◌, List, some, ok, arith, Option-cases, inl, inr, length,
}
use hla4_rs.Wire.Bytes.{from_be_bytes-be32}
use hla4_rs.Omt.Fom.{
  ObjectClassDef, InteractionClassDef, FomModule, object_class_handle, object_class_def,
  interaction_class_handle, interaction_class_def,
}
use hla4_rs.Omt.Merge.{merge_modules}
use hla4_rs.Omt.Merge.Names.{NamesAgree, merge_modules-NamesAgree}
use hla4_rs.Rti.Exception.{
  HlaException, name_not_found, invalid_object_class_handle, invalid_interaction_class_handle,
}
use hla4_rs.Rti.Handles.{
  encode_object_class, encode_interaction_class, decode_object_class, decode_interaction_class,
  decode_u32, encode_u32,
}
use hla4_rs.Rti.State.{
  Federation, SessionContext, Membership, exception_data, get_object_class_handle_response,
  get_interaction_class_handle_response, get_object_class_name_response,
  get_interaction_class_name_response,
}
use hla4_rs.Rti.HandleLookup.{
  get_object_class_handle, get_object_class_name, get_interaction_class_handle,
  get_interaction_class_name,
}

-- The bytes of a handle decode to it.
decode-encode_u32 :
    (raw : ℕ) (e : HlaException) → raw < 2 ^ 32 → decode_u32 (encode_u32 raw) e ≡ ok raw
unfolding decode_u32 encode_u32
decode-encode_u32 raw e h = ground (arith, from_be_bytes-be32 raw h)

decode-encode_object_class :
    (h : ℕ) → h < 2 ^ 32 → decode_object_class (encode_object_class h) ≡ ok h
unfolding decode_object_class encode_object_class
decode-encode_object_class h l = decode-encode_u32 h invalid_object_class_handle l

decode-encode_interaction_class :
    (h : ℕ) → h < 2 ^ 32 → decode_interaction_class (encode_interaction_class h) ≡ ok h
unfolding decode_interaction_class encode_interaction_class
decode-encode_interaction_class h l = decode-encode_u32 h invalid_interaction_class_handle l

object_handle-injective :
    (a b : List ℕ) → get_object_class_handle_response a ≡ get_object_class_handle_response b → a ≡ b
object_handle-injective a b h = cc

no_object_handle :
    (e : HlaException) (b : List ℕ) → ¬ (exception_data e ≡ get_object_class_handle_response b)
no_object_handle e b h = cc

interaction_handle-injective :
    (a b : List ℕ)
    → get_interaction_class_handle_response a ≡ get_interaction_class_handle_response b
    → a ≡ b
interaction_handle-injective a b h = cc

no_interaction_handle :
    (e : HlaException) (b : List ℕ) → ¬ (exception_data e ≡ get_interaction_class_handle_response b)
no_interaction_handle e b h = cc

module _ {T : Type 0} (ctx : SessionContext) (federation : Federation T) (m : Membership)
    (joined : ctx.membership ≡ some m) (agree : NamesAgree federation.fom) where
  object_name_answer :
      (bytes : List ℕ) (handle : ℕ) (d : ObjectClassDef)
      → decode_object_class bytes ≡ ok handle
      → object_class_def federation.fom handle ≡ some d
      → get_object_class_name ctx federation bytes ≡ get_object_class_name_response d.name
  unfolding get_object_class_name
  object_name_answer bytes handle d e g = rw (get_object_class_name, joined, e, g) refl

  object_name_of_handle :
      (name : String) (bytes : List ℕ)
      → get_object_class_handle ctx federation name ≡ get_object_class_handle_response bytes
      → get_object_class_name ctx federation bytes ≡ get_object_class_name_response name
  unfolding get_object_class_handle get_object_class_name
  object_name_of_handle name bytes h =
      elim (Option-cases (object_class_handle federation.fom name)) [
        | inl e ↦
            let answer : get_object_class_handle ctx federation name
                ≡ exception_data name_not_found =
              rw (get_object_class_handle, joined, e) refl in
            absurd (no_object_handle name_not_found bytes (sym answer ∙ h))
        | inr (handle, e) ↦
            let answer : get_object_class_handle ctx federation name
                ≡ get_object_class_handle_response (encode_object_class handle) =
              rw (get_object_class_handle, joined, e) refl in
            let found = agree.objects name handle e in
            let back : get_object_class_name ctx federation (encode_object_class handle)
                ≡ get_object_class_name_response found.1.0.name =
              object_name_answer (encode_object_class handle) handle found.1.0
                (decode-encode_object_class handle found.0) found.1.1.0 in
            subst
              (λ b. get_object_class_name ctx federation b ≡ get_object_class_name_response name)
              (object_handle-injective (encode_object_class handle) bytes (sym answer ∙ h))
              (back ∙ ap (λ n. get_object_class_name_response n) found.1.1.1)
      ]

  interaction_name_answer :
      (bytes : List ℕ) (handle : ℕ) (d : InteractionClassDef)
      → decode_interaction_class bytes ≡ ok handle
      → interaction_class_def federation.fom handle ≡ some d
      → get_interaction_class_name ctx federation bytes ≡ get_interaction_class_name_response d.name
  unfolding get_interaction_class_name
  interaction_name_answer bytes handle d e g = rw (get_interaction_class_name, joined, e, g) refl

  interaction_name_of_handle :
      (name : String) (bytes : List ℕ)
      → get_interaction_class_handle ctx federation name
        ≡ get_interaction_class_handle_response bytes
      → get_interaction_class_name ctx federation bytes ≡ get_interaction_class_name_response name
  unfolding get_interaction_class_handle get_interaction_class_name
  interaction_name_of_handle name bytes h =
      elim (Option-cases (interaction_class_handle federation.fom name)) [
        | inl e ↦
            let answer : get_interaction_class_handle ctx federation name
                ≡ exception_data name_not_found =
              rw (get_interaction_class_handle, joined, e) refl in
            absurd (no_interaction_handle name_not_found bytes (sym answer ∙ h))
        | inr (handle, e) ↦
            let answer : get_interaction_class_handle ctx federation name
                ≡ get_interaction_class_handle_response (encode_interaction_class handle) =
              rw (get_interaction_class_handle, joined, e) refl in
            let found = agree.interactions name handle e in
            let back : get_interaction_class_name ctx federation (encode_interaction_class handle)
                ≡ get_interaction_class_name_response found.1.0.name =
              interaction_name_answer (encode_interaction_class handle) handle found.1.0
                (decode-encode_interaction_class handle found.0) found.1.1.0 in
            subst
              (λ b.
                get_interaction_class_name ctx federation b
                ≡ get_interaction_class_name_response name)
              (interaction_handle-injective (encode_interaction_class handle) bytes
                (sym answer ∙ h))
              (back ∙ ap (λ n. get_interaction_class_name_response n) found.1.1.1)
      ]

module _ {T : Type 0} (ctx : SessionContext) (federation : Federation T) (m : Membership)
    (modules : List FomModule) where
  -- For a member of a federation whose object model is the union of some modules, with fewer than
  -- 2 ^ 32 - 1 classes of each kind: when the lookup of the name of an object class or of an
  -- interaction class answers a handle, the lookup of that handle answers the name.
  pub class_names_round_trip :
      ctx.membership ≡ some m
      → merge_modules modules ≡ ok federation.fom
      → length federation.fom.object_classes + 1 < 2 ^ 32
      → length federation.fom.interaction_classes + 1 < 2 ^ 32
      → (name : String) (bytes : List ℕ)
      → (get_object_class_handle ctx federation name ≡ get_object_class_handle_response bytes
          → get_object_class_name ctx federation bytes ≡ get_object_class_name_response name)
        × (get_interaction_class_handle ctx federation name
              ≡ get_interaction_class_handle_response bytes
            → get_interaction_class_name ctx federation bytes
              ≡ get_interaction_class_name_response name)
  class_names_round_trip joined merged o_fits i_fits name bytes =
      let agree : NamesAgree federation.fom =
        merge_modules-NamesAgree modules federation.fom merged o_fits i_fits in
      (
        object_name_of_handle ctx federation m joined agree name bytes,
        interaction_name_of_handle ctx federation m joined agree name bytes,
      )
