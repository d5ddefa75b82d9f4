-- ===== src/Wire/MessageHeader/RoundTrip.antt =====
-- Encoding and decoding of the header are inverse to one another.
use mathlib.Core.Path.{ap₂}
use hla4_rs.Prelude.{
  ℕ, ◌+◌, ◌^◌, ◌≤◌, ◌<◌, ◌≡◌, refl, ap, ◌∙◌, List, ◌∷◌, ◌++◌, arith, length, take, drop, slice, All,
  All-take, All-drop, length-take, length-drop, ok, ltb-false,
}
use hla4_rs.Prelude.Int.{of_bits-Fits}
use hla4_rs.Wire.Bytes.{
  IsByte, half32, be32, be64, from_be_bytes, i32_from_be_bytes, i32_be, from_be_bytes-be32,
  from_be_bytes-be64, i32_from_be_bytes-i32_be, be32-from_be_bytes, be64-from_be_bytes,
  from_be_bytes-lt_be32, from_be_bytes-lt_be64, i32_be-i32_from_be_bytes,
}
use hla4_rs.Wire.MessageType.{as_u32, header_size}
use hla4_rs.Wire.MessageType.Codes.{from_u32-as_u32, as_u32-lt, as_u32_of_from_u32}
use hla4_rs.Wire.MessageHeader.{MessageHeader, IsHeader, encode, decode}

pub length-encode : (h : MessageHeader) → length (encode h) ≡ header_size
unfolding encode
length-encode h = omega arith

-- A header whose fields are in range and whose packet size covers the header decodes, whatever
-- bytes follow it, to the header that was encoded.
pub decode-encode :
    (h : MessageHeader) (rest : List ℕ)
    → IsHeader h
    → header_size ≤ h.packet_size
    → decode (encode h ++ rest) ≡ ok h
unfolding encode decode
decode-encode h rest r big =
    let code : as_u32 h.message_type < 2 ^ 32 = omega (arith, as_u32-lt h.message_type) in
    rw (
      ltb-false (length (encode h ++ rest)) header_size (omega arith),
      from_be_bytes-be32 h.packet_size r.packet_size_range,
      ltb-false h.packet_size header_size big,
      from_be_bytes-be32 (as_u32 h.message_type) code,
      from_u32-as_u32 h.message_type,
      from_be_bytes-be64 h.session_id r.session_id_range,
      i32_from_be_bytes-i32_be h.sequence_number r.sequence_number_range,
      i32_from_be_bytes-i32_be h.last_received_sequence_number r.last_received_range,
    )

-- The facts that a successful decode leaves behind.
pub record Decoded (bytes : List ℕ) (h : MessageHeader) : Type 0 where
  pub enough : header_size ≤ length bytes
  pub covers : header_size ≤ h.packet_size
  pub packet_size_eq : h.packet_size ≡ from_be_bytes (slice 0 4 bytes)
  pub sequence_number_eq : h.sequence_number ≡ i32_from_be_bytes (slice 4 4 bytes)
  pub session_id_eq : h.session_id ≡ from_be_bytes (slice 8 8 bytes)
  pub last_received_eq : h.last_received_sequence_number ≡ i32_from_be_bytes (slice 16 4 bytes)
  pub message_type_eq : as_u32 h.message_type ≡ from_be_bytes (slice 20 4 bytes)

pub decode-Decoded : (bytes : List ℕ) (h : MessageHeader) → decode bytes ≡ ok h → Decoded bytes h
unfolding decode
decode-Decoded bytes h e =
    ground (arith, as_u32_of_from_u32 (from_be_bytes (slice 20 4 bytes)) h.message_type)

-- Cutting at the field boundaries loses nothing.
take-slices :
    (bytes : List ℕ)
    → slice 0 4 bytes
        ++ (slice 4 4 bytes ++ (slice 8 8 bytes ++ (slice 16 4 bytes ++ slice 20 4 bytes)))
      ≡ take header_size bytes
take-slices
      (b0 ∷ b1 ∷ b2 ∷ b3 ∷ b4 ∷ b5 ∷ b6 ∷ b7 ∷ b8 ∷ b9 ∷ b10 ∷ b11 ∷ b12 ∷ b13 ∷ b14 ∷ b15 ∷ b16
        ∷ b17 ∷ b18 ∷ b19 ∷ b20 ∷ b21 ∷ b22 ∷ b23 ∷ bs) =
    refl
take-slices _ = refl

slice-length :
    (from n : ℕ) (bytes : List ℕ) → from + n ≤ length bytes → length (slice from n bytes) ≡ n
slice-length from n bytes h = omega (arith, length-take n (drop from bytes), length-drop from bytes)

slice-IsByte : (from n : ℕ) (bytes : List ℕ) → All IsByte bytes → All IsByte (slice from n bytes)
slice-IsByte from n bytes h = All-take IsByte n (drop from bytes) (All-drop IsByte from bytes h)

-- What decodes from a byte string is encoded as the string's first 24 bytes, so no two strings of
-- that length decode to one header.
pub encode_of_decode :
    (bytes : List ℕ) (h : MessageHeader)
    → All IsByte bytes
    → decode bytes ≡ ok h
    → encode h ≡ take header_size bytes
unfolding encode
encode_of_decode bytes h byte e =
    let d : Decoded bytes h = decode-Decoded bytes h e in
    let enough = d.enough in
    let cut = λ (from n : ℕ) (p : from + n ≤ length bytes). slice-length from n bytes p in
    let own = λ (from n : ℕ). slice-IsByte from n bytes byte in
    ap₂ ◌++◌ (ap be32 d.packet_size_eq ∙ be32-from_be_bytes _ (cut 0 4 (omega arith)) (own 0 4)) (
      ap₂ ◌++◌
        (ap i32_be d.sequence_number_eq
          ∙ i32_be-i32_from_be_bytes _ (cut 4 4 (omega arith)) (own 4 4))
        (ap₂ ◌++◌ (ap be64 d.session_id_eq ∙ be64-from_be_bytes _ (cut 8 8 (omega arith)) (own 8 8))
          (ap₂ ◌++◌
            (ap i32_be d.last_received_eq
              ∙ i32_be-i32_from_be_bytes _ (cut 16 4 (omega arith)) (own 16 4))
            (ap be32 d.message_type_eq
              ∙ be32-from_be_bytes _ (cut 20 4 (omega arith)) (own 20 4)))))
    ∙ take-slices bytes

-- A header that decodes has fields in the ranges of their types.
pub decode-IsHeader :
    (bytes : List ℕ) (h : MessageHeader) → All IsByte bytes → decode bytes ≡ ok h → IsHeader h
decode-IsHeader bytes h byte e =
    let d : Decoded bytes h = decode-Decoded bytes h e in
    let enough = d.enough in
    let cut = λ (from n : ℕ) (p : from + n ≤ length bytes). slice-length from n bytes p in
    let own = λ (from n : ℕ). slice-IsByte from n bytes byte in
    record {
      packet_size_range =
          rw d.packet_size_eq (from_be_bytes-lt_be32 _ (cut 0 4 (omega arith)) (own 0 4));
      sequence_number_range =
          rw d.sequence_number_eq
            (of_bits-Fits half32 _ (from_be_bytes-lt_be32 _ (cut 4 4 (omega arith)) (own 4 4)));
      session_id_range =
          rw d.session_id_eq (from_be_bytes-lt_be64 _ (cut 8 8 (omega arith)) (own 8 8));
      last_received_range =
          rw d.last_received_eq
            (of_bits-Fits half32 _ (from_be_bytes-lt_be32 _ (cut 16 4 (omega arith)) (own 16 4)));
    }
