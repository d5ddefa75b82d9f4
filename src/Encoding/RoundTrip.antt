-- ===== src/Encoding/RoundTrip.antt =====
-- crates/hla-encoding/src/lib.rs: every element decodes from its bytes, whatever follows them.
use hla4_rs.Prelude.{
  ℕ, ◌+◌, ◌*◌, ◌%◌, ◌^◌, ◌<◌, ◌≡◌, refl, sym, ap, ◌∙◌, List, [], ◌∷◌, ◌++◌, Bool, true, false,
  Option, some, ok, ◌>>=◌, not, ltb, ltb-false, arith, length, take, drop, All, length-append,
  take-append,
}
use hla4_rs.Prelude.Int.{pos, eqb, Fits, to_bits, of_bits, of_bits-to_bits, to_bits-lt}
use hla4_rs.Wire.Bytes.{
  be16, be32, be64, from_be_bytes, from_be_bytes-be16, from_be_bytes-be32, from_be_bytes-be64,
  IsByte,
}
use hla4_rs.Encoding.{
  DataElement, decode_be, be_primitive, hla_integer16_be, hla_integer32_be, hla_integer64_be,
  hla_float32_be, hla_float64_be, hla_octet, decode_octet, hla_boolean, decode_boolean,
  hla_opaque_data, decode_opaque, hla_unicode_string, decode_unicode, unit_bytes, units_of, as_i32,
}

-- What an element promises of the values that satisfy a predicate.
pub record IsElement {A : Type 0} (e : DataElement A) (IsValue : A → Type 0) : Type 0 where
  pub round_trip :
      (v : A) (rest : List ℕ)
      → IsValue v
      → e.decode_from (e.encode_into v [] ++ rest) ≡ ok (v, e.encoded_length v)
  pub length_encoded :
      (v : A) (buf : List ℕ)
      → IsValue v
      → length (e.encode_into v buf) ≡ length buf + e.encoded_length v

module _ {A : Type 0} (bytes : ℕ) (to_be : A → List ℕ) (from_be : List ℕ → A) (IsValue : A → Type 0)
    (fixed : (v : A) → length (to_be v) ≡ bytes)
    (back : (v : A) → IsValue v → from_be (to_be v) ≡ v) where
  be_primitive-IsElement : IsElement (be_primitive bytes to_be from_be) IsValue
  unfolding decode_be
  be_primitive-IsElement = record {
    round_trip = λ v rest i.
        rw
          (
            ltb-false (length (to_be v ++ rest)) bytes
                (omega (arith, length-append (to_be v) rest, fixed v)),
            take-append bytes (to_be v) rest (sym (fixed v)),
            back v i,
          )
          refl;
    length_encoded = λ v buf i. rw (length-append buf (to_be v), fixed v) refl;
  }

module _ (half : ℕ) (bytes : ℕ) (to_be : ℕ → List ℕ) (positive : 0 < half)
    (fixed : (n : ℕ) → length (to_be n) ≡ bytes)
    (back : (n : ℕ) → n < half + half → from_be_bytes (to_be n) ≡ n) where
  integer-IsElement :
      IsElement
        (be_primitive bytes (λ v. to_be (to_bits half v)) (λ bs. of_bits half (from_be_bytes bs)))
        (Fits half)
  integer-IsElement =
      be_primitive-IsElement bytes (λ v. to_be (to_bits half v))
        (λ bs. of_bits half (from_be_bytes bs)) (Fits half) (λ v. fixed (to_bits half v))
        (λ v i.
          ap (of_bits half) (back (to_bits half v) (to_bits-lt half v positive i))
          ∙ of_bits-to_bits half v i)

octet-IsElement : IsElement hla_octet IsByte
unfolding decode_octet
octet-IsElement = record {
  round_trip = λ v rest i. refl;
  length_encoded = λ v buf i. length-append buf (v ∷ []);
}

integer32-IsElement : IsElement hla_integer32_be (Fits (2 ^ 31))
integer32-IsElement =
    integer-IsElement (2 ^ 31) 4 be32 (omega arith) (λ n. refl)
      (λ n h. from_be_bytes-be32 n (omega arith))

boolean_round_trip :
    (v : Bool) (rest : List ℕ) → decode_boolean (be32 (as_i32 v) ++ rest) ≡ ok (v, 4)
unfolding decode_boolean to_bits
boolean_round_trip true rest =
    ap (λ r. r >>= (λ v. ok (not (eqb v.0 (pos 0)), v.1)))
      (integer32-IsElement.round_trip (pos 1) rest (omega arith))
boolean_round_trip false rest =
    ap (λ r. r >>= (λ v. ok (not (eqb v.0 (pos 0)), v.1)))
      (integer32-IsElement.round_trip (pos 0) rest (omega arith))

boolean-IsElement : IsElement hla_boolean (λ v. Unit)
boolean-IsElement = record {
  round_trip = λ v rest i. boolean_round_trip v rest;
  length_encoded = λ v buf i. length-append buf (be32 (as_i32 v));
}

-- The length stands before the content, of which it is the length.
module _ (n : ℕ) (fits : n < 2 ^ 32) (content rest : List ℕ) where
  abbrev prefixed : List ℕ
  prefixed = (be32 (n % 2 ^ 32) ++ content) ++ rest

  read_length : from_be_bytes (take 4 prefixed) ≡ n
  read_length = from_be_bytes-be32 (n % 2 ^ 32) (omega arith) ∙ omega arith

  long_enough : (size : ℕ) → size ≡ length content → ltb (length prefixed) (4 + size) ≡ false
  long_enough size e =
      ltb-false (length prefixed) (4 + size) (omega (arith, length-append content rest))

  read_content : (size : ℕ) → size ≡ length content → drop 4 (take (4 + size) prefixed) ≡ content
  read_content size e = ap (drop 4) (
      take-append (4 + size) (be32 (n % 2 ^ 32) ++ content) rest
        (omega (arith, length-append content rest)))

opaque_round_trip :
    (v rest : List ℕ)
    → length v < 2 ^ 32
    → decode_opaque ((be32 (length v % 2 ^ 32) ++ v) ++ rest) ≡ ok (v, 4 + length v)
unfolding decode_opaque
opaque_round_trip v rest i =
    rw
      (
        ltb-false (length (prefixed (length v) i v rest)) 4 (omega (arith, length-append v rest)),
        read_length (length v) i v rest,
        long_enough (length v) i v rest (length v) refl,
        read_content (length v) i v rest (length v) refl,
      )
      refl

length-unit_bytes : (units : List ℕ) → length (unit_bytes units) ≡ length units * 2
unfolding unit_bytes
length-unit_bytes [] = refl
length-unit_bytes (u ∷ units) = omega (arith, length-unit_bytes units)

units_of-unit_bytes :
    (units : List ℕ) → All (λ u. u < 2 ^ 16) units → units_of (unit_bytes units) ≡ units
unfolding units_of unit_bytes
units_of-unit_bytes [] a = refl
units_of-unit_bytes (u ∷ units) a =
    rw (from_be_bytes-be16 u a.0, units_of-unit_bytes units a.1) refl

-- What is relied on of the functions on texts: the units of a text are 16-bit numbers, and they
-- decode to it.
pub record IsUtf16 {S : Type 0} (encode_utf16 : S → List ℕ) (decode_utf16 : List ℕ → Option S)
    : Type 0 where
  pub units : (s : S) → All (λ u. u < 2 ^ 16) (encode_utf16 s)
  pub decoded : (s : S) → decode_utf16 (encode_utf16 s) ≡ some s

module _ {S : Type 0} (encode_utf16 : S → List ℕ) (decode_utf16 : List ℕ → Option S)
    (law : IsUtf16 encode_utf16 decode_utf16) where
  unicode_round_trip :
      (v : S) (rest : List ℕ)
      → length (encode_utf16 v) < 2 ^ 32
      → decode_unicode encode_utf16 decode_utf16
          ((be32 (length (encode_utf16 v) % 2 ^ 32) ++ unit_bytes (encode_utf16 v)) ++ rest)
        ≡ ok (v, 4 + length (encode_utf16 v) * 2)
  unfolding decode_unicode
  unicode_round_trip v rest i =
      let units : List ℕ = encode_utf16 v in
      let body : List ℕ = unit_bytes units in
      let size : length units * 2 ≡ length body = sym (length-unit_bytes units) in
      rw
        (
          ltb-false (length (prefixed (length units) i body rest)) 4
              (omega (arith, length-append body rest)),
          read_length (length units) i body rest,
          long_enough (length units) i body rest (length units * 2) size,
          read_content (length units) i body rest (length units * 2) size,
          units_of-unit_bytes units (law.units v),
          law.decoded v,
        )
        refl

  -- When the functions on texts agree, every element decodes from its bytes, whatever bytes follow,
  -- to the value and its length, and its encoding has that length: the integers that fit their words,
  -- the bits of a float, an octet, a Boolean, and the opaque data and the texts with fewer than
  -- 2 ^ 32 bytes or units.
  pub elements_round_trip :
      IsElement hla_integer16_be (Fits (2 ^ 15))
      × (IsElement hla_integer32_be (Fits (2 ^ 31))
          × (IsElement hla_integer64_be (Fits (2 ^ 63))
              × (IsElement hla_float32_be (λ v. v < 2 ^ 32)
                  × (IsElement hla_float64_be (λ v. v < 2 ^ 64)
                      × (IsElement hla_octet IsByte
                          × (IsElement hla_boolean (λ v. Unit {0})
                              × (IsElement hla_opaque_data (λ v. length v < 2 ^ 32)
                                  × IsElement
                                      (hla_unicode_string encode_utf16 decode_utf16)
                                      (λ v. length (encode_utf16 v) < 2 ^ 32))))))))
  elements_round_trip = (
    integer-IsElement (2 ^ 15) 2 be16 (omega arith) (λ n. refl)
        (λ n h. from_be_bytes-be16 n (omega arith)),
    (
      integer32-IsElement,
      (
        integer-IsElement (2 ^ 63) 8 be64 (omega arith) (λ n. refl)
            (λ n h. from_be_bytes-be64 n (omega arith)),
        (
          be_primitive-IsElement 4 be32 from_be_bytes (λ v. v < 2 ^ 32) (λ v. refl)
              from_be_bytes-be32,
          (
            be_primitive-IsElement 8 be64 from_be_bytes (λ v. v < 2 ^ 64) (λ v. refl)
                from_be_bytes-be64,
            (
              octet-IsElement,
              (
                boolean-IsElement,
                (
                  record {
                    round_trip = λ v rest i. opaque_round_trip v rest i;
                    length_encoded = λ v buf i. omega (
                      arith,
                      length-append (buf ++ be32 (length v % 2 ^ 32)) v,
                      length-append buf (be32 (length v % 2 ^ 32)),
                    );
                  },
                  record {
                    round_trip = λ v rest i. unicode_round_trip v rest i;
                    length_encoded = λ v buf i. omega (
                      arith,
                      length-append (buf ++ be32 (length (encode_utf16 v) % 2 ^ 32))
                          (unit_bytes (encode_utf16 v)),
                      length-append buf (be32 (length (encode_utf16 v) % 2 ^ 32)),
                      length-unit_bytes (encode_utf16 v),
                    );
                  },
                ),
              ),
            ),
          ),
        ),
      ),
    ),
  )
