-- ===== src/Encoding.antt =====
-- crates/hla-encoding/src/lib.rs: the standard data types as bytes. An i16, i32 or i64 is a whole
-- number that fits, an f32 or f64 the number of its bits. `encode_utf16` and `decode_utf16` stand for
-- the functions of the standard library on a type of texts.
use hla4_rs.Prelude.{
  ℕ, ◌+◌, ◌*◌, ◌%◌, ◌^◌, List, [], ◌∷◌, ◌++◌, Bool, true, false, not, Option, none, some, Result,
  ok, err, ◌>>=◌, ◌==◌, ltb, if◌then◌else◌, length, take, drop, slice,
}
use hla4_rs.Prelude.Int.{ℤ, pos, to_bits, of_bits, eqb}
use hla4_rs.Wire.Bytes.{be16, be32, be64, from_be_bytes}
pub mod RoundTrip
mod Examples

pub data EncodingError : Type 0 where
  -- the bytes needed and had
  truncated : ℕ → ℕ → EncodingError
  utf16 : EncodingError

-- The trait, for a type of values. `encode_into` appends to its buffer.
pub record DataElement (A : Type 0) : Type 0 where
  pub octet_boundary : A → ℕ
  pub encoded_length : A → ℕ
  pub encode_into : A → List ℕ → List ℕ
  pub decode_from : List ℕ → Result EncodingError (A × ℕ)

-- `to_bytes`
unfoldable pub to_bytes : {A : Type 0} → DataElement A → A → List ℕ
to_bytes e v = e.encode_into v []

-- The macro's decoder of `bytes` bytes.
unfoldable pub decode_be : {A : Type 0} → ℕ → (List ℕ → A) → List ℕ → Result EncodingError (A × ℕ)
decode_be bytes from_be buf =
    if ltb (length buf) bytes
    then err (truncated bytes (length buf))
    else ok (from_be (take bytes buf), bytes)

-- `impl_be_primitive!`
abbrev pub be_primitive : {A : Type 0} → ℕ → (A → List ℕ) → (List ℕ → A) → DataElement A
be_primitive bytes to_be from_be = record {
  octet_boundary = λ v. bytes;
  encoded_length = λ v. bytes;
  encode_into = λ v buf. buf ++ to_be v;
  decode_from = decode_be bytes from_be;
}

abbrev pub hla_integer16_be : DataElement ℤ
hla_integer16_be =
    be_primitive 2 (λ v. be16 (to_bits (2 ^ 15) v)) (λ bs. of_bits (2 ^ 15) (from_be_bytes bs))

abbrev pub hla_integer32_be : DataElement ℤ
hla_integer32_be =
    be_primitive 4 (λ v. be32 (to_bits (2 ^ 31) v)) (λ bs. of_bits (2 ^ 31) (from_be_bytes bs))

abbrev pub hla_integer64_be : DataElement ℤ
hla_integer64_be =
    be_primitive 8 (λ v. be64 (to_bits (2 ^ 63) v)) (λ bs. of_bits (2 ^ 63) (from_be_bytes bs))

abbrev pub hla_float32_be : DataElement ℕ
hla_float32_be = be_primitive 4 be32 from_be_bytes

abbrev pub hla_float64_be : DataElement ℕ
hla_float64_be = be_primitive 8 be64 from_be_bytes

unfoldable pub decode_octet : List ℕ → Result EncodingError (ℕ × ℕ)
decode_octet [] = err (truncated 1 0)
decode_octet (b ∷ buf) = ok (b, 1)

abbrev pub hla_octet : DataElement ℕ
hla_octet = record {
  octet_boundary = λ v. 1;
  encoded_length = λ v. 1;
  encode_into = λ v buf. buf ++ (v ∷ []);
  decode_from = decode_octet;
}

-- `self.0 as i32`
abbrev pub as_i32 : Bool → ℕ
as_i32 true = 1
as_i32 false = 0

unfoldable pub decode_boolean : List ℕ → Result EncodingError (Bool × ℕ)
unfolding decode_be
decode_boolean buf = hla_integer32_be.decode_from buf >>= (λ v. ok (not (eqb v.0 (pos 0)), v.1))

abbrev pub hla_boolean : DataElement Bool
hla_boolean = record {
  octet_boundary = λ v. 4;
  encoded_length = λ v. 4;
  encode_into = λ v buf. buf ++ be32 (as_i32 v);
  decode_from = decode_boolean;
}

unfoldable pub decode_opaque : List ℕ → Result EncodingError (List ℕ × ℕ)
decode_opaque buf =
    if ltb (length buf) 4
    then err (truncated 4 (length buf))
    else (let need = 4 + from_be_bytes (take 4 buf) in
        if ltb (length buf) need
        then err (truncated need (length buf))
        else ok (drop 4 (take need buf), need))

abbrev pub hla_opaque_data : DataElement (List ℕ)
hla_opaque_data = record {
  octet_boundary = λ v. 4;
  encoded_length = λ v. 4 + length v;
  encode_into = λ v buf. (buf ++ be32 (length v % 2 ^ 32)) ++ v;
  decode_from = decode_opaque;
}

-- The units of a text in bytes, and the units of bytes.
unfoldable pub unit_bytes : List ℕ → List ℕ
unit_bytes [] = []
unit_bytes (u ∷ units) = be16 u ++ unit_bytes units

unfoldable pub units_of : List ℕ → List ℕ
units_of (a ∷ b ∷ bytes) = from_be_bytes (a ∷ b ∷ []) ∷ units_of bytes
units_of _ = []

module _ {S : Type 0} (encode_utf16 : S → List ℕ) (decode_utf16 : List ℕ → Option S) where
  abbrev pub text_of : Option S → ℕ → Result EncodingError (S × ℕ)
  text_of none need = err utf16
  text_of (some s) need = ok (s, need)

  unfoldable pub decode_unicode : List ℕ → Result EncodingError (S × ℕ)
  unfolding units_of
  decode_unicode buf =
      if ltb (length buf) 4
      then err (truncated 4 (length buf))
      else (let need = 4 + from_be_bytes (take 4 buf) * 2 in
          if ltb (length buf) need
          then err (truncated need (length buf))
          else text_of (decode_utf16 (units_of (drop 4 (take need buf)))) need)

  abbrev pub hla_unicode_string : DataElement S
  hla_unicode_string = record {
    octet_boundary = λ v. 4;
    encoded_length = λ v. 4 + length (encode_utf16 v) * 2;
    encode_into =
        λ v buf. (buf ++ be32 (length (encode_utf16 v) % 2 ^ 32)) ++ unit_bytes (encode_utf16 v);
    decode_from = decode_unicode;
  }
