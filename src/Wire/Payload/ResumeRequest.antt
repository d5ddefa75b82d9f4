-- ===== src/Wire/Payload/ResumeRequest.antt =====
-- `ResumeRequestPayload`: the body of CTRL_RESUME_REQUEST.
use hla4_rs.Prelude.{ℕ, List, ◌++◌, length, slice, ltb, if◌then◌else◌, Result, ok, err}
use hla4_rs.Prelude.Int.{ℤ}
use hla4_rs.Wire.Bytes.{i32_be, i32_from_be_bytes}
use hla4_rs.Wire.MessageType.{FrameError, truncated}

pub record ResumeRequest : Type 0 where
  pub last_received_rti_sequence_number : ℤ
  pub oldest_available_federate_sequence_number : ℤ

abbrev pub size : ℕ
size = 8

unfoldable pub encode : ResumeRequest → List ℕ
encode p =
    i32_be p.last_received_rti_sequence_number ++ i32_be p.oldest_available_federate_sequence_number

unfoldable pub decode : List ℕ → Result FrameError ResumeRequest
decode bytes =
    if ltb (length bytes) 8
    then err (truncated 8 (length bytes))
    else ok (record {
      last_received_rti_sequence_number = i32_from_be_bytes (slice 0 4 bytes);
      oldest_available_federate_sequence_number = i32_from_be_bytes (slice 4 4 bytes);
    })
