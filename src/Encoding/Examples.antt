-- ===== src/Encoding/Examples.antt =====
-- Two texts, and some bytes of each element.
use hla4_rs.Prelude.{
  ℕ, ◌^◌, ◌<◌, ◌≡◌, refl, List, [], ◌∷◌, Bool, true, false, Option, some, err, arith, length, All,
}
use hla4_rs.Prelude.Int.{negsuc, Fits, to_bits}
use hla4_rs.Wire.Bytes.{IsByte}
use hla4_rs.Encoding.{
  truncated, to_bytes, hla_integer16_be, hla_integer32_be, hla_integer64_be, hla_float32_be,
  hla_float64_be, hla_octet, hla_boolean, hla_opaque_data, hla_unicode_string, decode_opaque,
}
use hla4_rs.Encoding.RoundTrip.{IsElement, elements_round_trip}

-- "Hi" and the empty text
abbrev encode_utf16 : Bool → List ℕ
encode_utf16 true = 72 ∷ 105 ∷ []
encode_utf16 false = []

abbrev decode_utf16 : List ℕ → Option Bool
decode_utf16 [] = some false
decode_utf16 (u ∷ units) = some true

utf16-units : (s : Bool) → All (λ u. u < 2 ^ 16) (encode_utf16 s)
utf16-units true = (omega arith, (omega arith, tt))
utf16-units false = tt

utf16-decoded : (s : Bool) → decode_utf16 (encode_utf16 s) ≡ some s
utf16-decoded true = refl
utf16-decoded false = refl

minus_one_test : to_bytes hla_integer16_be (negsuc 0) ≡ 255 ∷ 255 ∷ []
unfolding to_bytes to_bits
minus_one_test = refl

truncated_test : hla_opaque_data.decode_from (0 ∷ 0 ∷ 0 ∷ 3 ∷ 7 ∷ []) ≡ err (truncated 7 5)
unfolding decode_opaque
truncated_test = refl

elements_round_trip_example :
    IsElement hla_integer16_be (Fits (2 ^ 15))
    × (IsElement hla_integer32_be (Fits (2 ^ 31))
        × (IsElement hla_integer64_be (Fits (2 ^ 63))
            × (IsElement hla_float32_be (λ v. v < 2 ^ 32)
                × (IsElement hla_float64_be (λ v. v < 2 ^ 64)
                    × (IsElement hla_octet IsByte
                        × (IsElement hla_boolean (λ v. Unit {0})
                            × (IsElement hla_opaque_data (λ v. length v < 2 ^ 32)
                                × IsElement
                                    (hla_unicode_string encode_utf16 decode_utf16)
                                    (λ v. length (encode_utf16 v) < 2 ^ 32))))))))
elements_round_trip_example =
    elements_round_trip encode_utf16 decode_utf16
      (record { units = utf16-units; decoded = utf16-decoded })
