-- ===== src/Wire/Payload/CallResponse.antt =====
-- `HlaCallResponsePayload`: the body of HLA_CALL_RESPONSE.
use hla4_rs.Prelude.{ℕ, List, ◌++◌, length, slice, drop, ltb, if◌then◌else◌, Result, ok, err}
use hla4_rs.Prelude.Int.{ℤ}
use hla4_rs.Wire.Bytes.{i32_be, i32_from_be_bytes}
use hla4_rs.Wire.MessageType.{FrameError, truncated}

pub record CallResponse : Type 0 where
  pub response_to_sequence_number : ℤ
  pub body : List ℕ

unfoldable pub encode : CallResponse → List ℕ
encode p = i32_be p.response_to_sequence_number ++ p.body

unfoldable pub decode : List ℕ → Result FrameError CallResponse
decode bytes =
    if ltb (length bytes) 4
    then err (truncated 4 (length bytes))
    else ok (record {
      response_to_sequence_number = i32_from_be_bytes (slice 0 4 bytes);
      body = drop 4 bytes;
    })
