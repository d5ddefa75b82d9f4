-- ===== src/Rti/Handles.antt =====
-- crates/hla-rti/src/handles.rs: handles as bytes. A handle that does not decode gives the exception
-- kind that the caller passes.
use hla4_rs.Prelude.{
  ℕ, List, [], ◌∷◌, Option, none, some, Result, ok, err, ◌==◌, if◌then◌else◌, length,
}
use hla4_rs.Prelude.Eq.{nat_eq}
use hla4_rs.Prelude.Sets.{set_insert}
use hla4_rs.Omt.Fom.{and_then}
use hla4_rs.Wire.Bytes.{be32, be64, from_be_bytes}
use hla4_rs.Rti.Exception.{
  HlaException, invalid_object_class_handle, invalid_attribute_handle,
  invalid_interaction_class_handle, invalid_parameter_handle, invalid_object_instance_handle,
}

unfoldable pub encode_u32 : ℕ → List ℕ
encode_u32 raw = be32 raw

unfoldable pub encode_u64 : ℕ → List ℕ
encode_u64 raw = be64 raw

unfoldable pub decode_u32 : List ℕ → HlaException → Result HlaException ℕ
decode_u32 bytes exception = if length bytes == 4 then ok (from_be_bytes bytes) else err exception

unfoldable pub decode_u64 : List ℕ → HlaException → Result HlaException ℕ
decode_u64 bytes exception = if length bytes == 8 then ok (from_be_bytes bytes) else err exception

unfoldable pub encode_object_class : ℕ → List ℕ
unfolding encode_u32
encode_object_class h = encode_u32 h

unfoldable pub encode_attribute : ℕ → List ℕ
unfolding encode_u32
encode_attribute h = encode_u32 h

unfoldable pub encode_interaction_class : ℕ → List ℕ
unfolding encode_u32
encode_interaction_class h = encode_u32 h

unfoldable pub encode_parameter : ℕ → List ℕ
unfolding encode_u32
encode_parameter h = encode_u32 h

unfoldable pub encode_object_instance : ℕ → List ℕ
unfolding encode_u64
encode_object_instance h = encode_u64 h

unfoldable pub encode_federate : ℕ → List ℕ
unfolding encode_u32
encode_federate h = encode_u32 h

unfoldable pub decode_object_class : List ℕ → Result HlaException ℕ
unfolding decode_u32
decode_object_class p = decode_u32 p invalid_object_class_handle

unfoldable pub decode_attribute : List ℕ → Result HlaException ℕ
unfolding decode_u32
decode_attribute p = decode_u32 p invalid_attribute_handle

unfoldable pub decode_interaction_class : List ℕ → Result HlaException ℕ
unfolding decode_u32
decode_interaction_class p = decode_u32 p invalid_interaction_class_handle

unfoldable pub decode_parameter : List ℕ → Result HlaException ℕ
unfolding decode_u32
decode_parameter p = decode_u32 p invalid_parameter_handle

unfoldable pub decode_object_instance : List ℕ → Result HlaException ℕ
unfolding decode_u64
decode_object_instance p = decode_u64 p invalid_object_instance_handle

-- `h.and_then(|h| decode(&h).ok())`
abbrev pub ok_of : {E A : Type 0} → Result E A → Option A
ok_of (ok a) = some a
ok_of (err e) = none

abbrev pub decoded : (List ℕ → Result HlaException ℕ) → Option (List ℕ) → Option ℕ
decoded decode h = and_then h (λ bytes. ok_of (decode bytes))

-- The loop of `decode_handle_set`.
unfoldable pub decode_handles : List (List ℕ) → List ℕ → Result HlaException (List ℕ)
unfolding decode_attribute set_insert
decode_handles [] out = ok out
decode_handles (a ∷ handles) out = elim (decode_attribute a) [
  | err n ↦ err n
  | ok h ↦ decode_handles handles (set_insert h out)
]

unfoldable pub decode_handle_set : Option (List (List ℕ)) → Result HlaException (List ℕ)
unfolding decode_handles
decode_handle_set none = ok []
decode_handle_set (some set) = decode_handles set []
