-- ===== src/Wire/Payload/RoundTrip.antt =====
-- Every message body decodes to what was encoded.
use hla4_rs.Prelude.{ℕ, ◌≡◌, refl, List, ◌++◌, arith, ok, length, ltb-false}
use hla4_rs.Prelude.Int.{ℤ}
use hla4_rs.Wire.Bytes.{IsI32, i32_be, i32_from_be_bytes-i32_be}
use hla4_rs.Wire.Payload.StatusReason.{StatusReason, success, as_i32, from_i32}
use hla4_rs.Wire.Payload.NewSession
use hla4_rs.Wire.Payload.NewSession.{NewSession}
use hla4_rs.Wire.Payload.NewSessionStatus
use hla4_rs.Wire.Payload.NewSessionStatus.{NewSessionStatus}
use hla4_rs.Wire.Payload.ResumeStatus
use hla4_rs.Wire.Payload.ResumeStatus.{ResumeStatus}
use hla4_rs.Wire.Payload.ResumeRequest
use hla4_rs.Wire.Payload.ResumeRequest.{ResumeRequest}
use hla4_rs.Wire.Payload.CallResponse
use hla4_rs.Wire.Payload.CallResponse.{CallResponse}
use hla4_rs.Wire.Payload.CallbackResponse
use hla4_rs.Wire.Payload.CallbackResponse.{CallbackResponse}

pub from_i32-as_i32 : (r : StatusReason) → from_i32 (as_i32 r) ≡ ok r
unfolding as_i32 from_i32
from_i32-as_i32 success = refl
from_i32-as_i32 _ = refl

pub NewSession-decode-encode :
    (p : NewSession) → IsI32 p.protocol_version → NewSession.decode (NewSession.encode p) ≡ ok p
unfolding NewSession.encode NewSession.decode
NewSession-decode-encode p h = rw (i32_from_be_bytes-i32_be p.protocol_version h)

as_i32-IsI32 : (r : StatusReason) → IsI32 (as_i32 r)
unfolding as_i32
as_i32-IsI32 success = omega arith
as_i32-IsI32 _ = omega arith

-- Both status bodies carry every reason through the wire.
pub Status-decode-encode :
    (r : StatusReason)
    → (NewSessionStatus.decode (NewSessionStatus.encode (record { reason = r }))
        ≡ ok (record { reason = r }))
      × (ResumeStatus.decode (ResumeStatus.encode (record { reason = r }))
          ≡ ok (record { reason = r }))
unfolding NewSessionStatus.encode NewSessionStatus.decode ResumeStatus.encode ResumeStatus.decode
Status-decode-encode r =
    let back = i32_from_be_bytes-i32_be (as_i32 r) (as_i32-IsI32 r) in
    (rw (back, from_i32-as_i32 r), rw (back, from_i32-as_i32 r))

pub ResumeRequest-decode-encode :
    (p : ResumeRequest)
    → IsI32 p.last_received_rti_sequence_number
    → IsI32 p.oldest_available_federate_sequence_number
    → ResumeRequest.decode (ResumeRequest.encode p) ≡ ok p
unfolding ResumeRequest.encode ResumeRequest.decode
ResumeRequest-decode-encode p h k = rw (
  i32_from_be_bytes-i32_be p.last_received_rti_sequence_number h,
  i32_from_be_bytes-i32_be p.oldest_available_federate_sequence_number k,
)

-- A call response and a callback response carry the number of the request and the whole body,
-- of whatever length, through the wire.
pub Response-decode-encode :
    (seq : ℤ) (body : List ℕ)
    → IsI32 seq
    → (CallResponse.decode
          (CallResponse.encode (record { response_to_sequence_number = seq; body = body }))
        ≡ ok (record { response_to_sequence_number = seq; body = body }))
      × (CallbackResponse.decode
            (CallbackResponse.encode (record { response_to_sequence_number = seq; body = body }))
          ≡ ok (record { response_to_sequence_number = seq; body = body }))
unfolding CallResponse.encode CallResponse.decode CallbackResponse.encode CallbackResponse.decode
Response-decode-encode seq body h =
    let back = i32_from_be_bytes-i32_be seq h in
    let long = ltb-false (length (i32_be seq ++ body)) 4 (omega arith) in
    (rw (long, back), rw (long, back))
