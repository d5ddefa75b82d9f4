-- ===== src/Wire/Examples.antt =====
-- Inputs at which the theorems on hla-wire apply, and tests.
use hla4_rs.Prelude.{
  ℕ, ◌-◌, ◌%◌, ◌^◌, ◌≡◌, ◌≢◌, refl, false, List, [], ◌∷◌, ◌++◌, some, none, arith, ok, err, take,
  get_elem?,
}
use hla4_rs.Prelude.Int.{pos, negsuc, of_bits, to_bits}
use hla4_rs.Wire.MessageType.{ctrl_heartbeat, hla_call_request, from_u32, as_u32, header_size}
use hla4_rs.Wire.MessageType.Codes.{as_u32_of_from_u32}
use hla4_rs.Wire.MessageHeader
use hla4_rs.Wire.MessageHeader.{MessageHeader}
use hla4_rs.Wire.MessageHeader.RoundTrip.{decode-encode, encode_of_decode}
use hla4_rs.Wire.Frame
use hla4_rs.Wire.Frame.{Frame, new_session_frame}
use hla4_rs.Wire.Payload.CallResponse
use hla4_rs.Wire.Payload.CallbackResponse
use hla4_rs.Wire.Payload.RoundTrip.{Response-decode-encode}
use hla4_rs.Wire.Sequence.{Attempt, claim_loop, claims}
use hla4_rs.Wire.Sequence.Claims.{
  claims_distinct, claim_loop_linearizes, claim_loop_ends, AllFail, expected, numbers,
  claims-numbers,
}
use hla4_rs.Wire.Codec.{decode, read_frame}
use hla4_rs.Wire.Codec.Agreement.{read_frame-decode, as_read}
use hla4_rs.Wire.Codec.Stream.{IsFrame, decode-encode_frame, decode_partial, decode_sound}
use hla4_rs.Wire.Session.{running, unsupported_protocol_version}
use hla4_rs.Wire.Session.Handshake
use hla4_rs.Wire.Session
use hla4_rs.Wire.Sequence
use hla4_rs.Wire.Payload.StatusReason.{StatusReason}

-- The header of a call request with a payload of two bytes.
abbrev call_header : MessageHeader
call_header = record {
  packet_size = 26;
  sequence_number = pos 17;
  session_id = 0xDEADBEEFCAFEF00D;
  last_received_sequence_number = negsuc 0;
  message_type = hla_call_request;
}

abbrev call_frame : Frame
call_frame = record { header = call_header; payload = 7 ∷ 9 ∷ [] }

call_frame-IsFrame : IsFrame call_frame
call_frame-IsFrame = omega arith

-- The bytes that the repository's golden test expects.
new_session_golden :
    Frame.encode new_session_frame
    ≡ 0 ∷ 0 ∷ 0 ∷ 0x1c ∷ 0 ∷ 0 ∷ 0 ∷ 0 ∷ 0 ∷ 0 ∷ 0 ∷ 0 ∷ 0 ∷ 0 ∷ 0 ∷ 0 ∷ 0x80 ∷ 0 ∷ 0 ∷ 0 ∷ 0 ∷ 0
      ∷ 0 ∷ 1 ∷ 0 ∷ 0 ∷ 0 ∷ 1 ∷ []
unfolding Frame.encode new_session_frame MessageHeader.encode to_bits
new_session_golden = refl

as_u32_of_from_u32_example : as_u32 ctrl_heartbeat ≡ 3
as_u32_of_from_u32_example = as_u32_of_from_u32 3 ctrl_heartbeat (unfold from_u32 in refl)

decode-encode_example :
    MessageHeader.decode (MessageHeader.encode call_header ++ (7 ∷ 9 ∷ [])) ≡ ok call_header
decode-encode_example = decode-encode call_header (7 ∷ 9 ∷ []) (omega arith) (omega arith)

abbrev call_bytes : List ℕ
call_bytes =
    0 ∷ 0 ∷ 0 ∷ 26 ∷ 0 ∷ 0 ∷ 0 ∷ 17 ∷ 0xDE ∷ 0xAD ∷ 0xBE ∷ 0xEF ∷ 0xCA ∷ 0xFE ∷ 0xF0 ∷ 0x0D ∷ 0xff
    ∷ 0xff ∷ 0xff ∷ 0xff ∷ 0 ∷ 0 ∷ 0 ∷ 20 ∷ 7 ∷ 9 ∷ 5 ∷ []

encode_of_decode_example : MessageHeader.encode call_header ≡ take header_size call_bytes
encode_of_decode_example =
    encode_of_decode call_bytes call_header (omega arith)
      (unfold MessageHeader.decode of_bits in refl)

Response-decode-encode_example :
    (CallResponse.decode
        (CallResponse.encode (record { response_to_sequence_number = pos 5; body = 1 ∷ [] }))
      ≡ ok (record { response_to_sequence_number = pos 5; body = 1 ∷ [] }))
    × (CallbackResponse.decode
          (CallbackResponse.encode (record { response_to_sequence_number = pos 5; body = 1 ∷ [] }))
        ≡ ok (record { response_to_sequence_number = pos 5; body = 1 ∷ [] }))
Response-decode-encode_example = Response-decode-encode (pos 5) (1 ∷ []) (omega arith)

claims-numbers_example : claims 2 (pos ((2 ^ 31 - 1) % 2 ^ 31)) ≡ numbers 2 (2 ^ 31 - 1)
claims-numbers_example = claims-numbers 2 (2 ^ 31 - 1)

claims_distinct_example :
    get_elem? (claims 3 (pos (2 ^ 31 - 1))) 0 ≢ get_elem? (claims 3 (pos (2 ^ 31 - 1))) 2
claims_distinct_example =
    claims_distinct 3 (2 ^ 31 - 1) 0 2 (omega arith) (omega arith) (omega arith) (omega arith)

-- Another thread claims 4 first; then the exchange succeeds.
abbrev contended : List Attempt
contended =
    record { counter = pos 5; spurious = false } ∷ record { counter = pos 5; spurious = false } ∷ []

contended_claim : claim_loop contended (pos 4) ≡ some (pos 5, pos 6)
unfolding claim_loop
contended_claim = refl

claim_loop_linearizes_example :
    (before : List Attempt) × (a : Attempt) × (after : List Attempt) × (contended
      ≡ before ++ (a ∷ after))
    × AllFail (pos 4) before
    × (a.counter ≡ expected (pos 4) before)
    × (a.spurious ≡ false)
    × (pos 5 ≡ Sequence.claimed_of a.counter)
    × (pos 6 ≡ Sequence.next_of (pos 5))
claim_loop_linearizes_example =
    claim_loop_linearizes contended (pos 4) (pos 5) (pos 6) contended_claim

claim_loop_ends_example : claim_loop ([] ++ contended) (pos 4) ≢ none
claim_loop_ends_example =
    claim_loop_ends [] (record { counter = pos 5; spurious = false })
      (record { counter = pos 5; spurious = false }) [] (pos 4) refl refl

decode-encode_frame_example :
    decode (Frame.encode call_frame ++ (1 ∷ [])) ≡ (ok (some call_frame), 1 ∷ [])
decode-encode_frame_example = decode-encode_frame call_frame (1 ∷ []) call_frame-IsFrame

decode_partial_example : decode (take 25 call_bytes) ≡ (ok none, take 25 call_bytes)
decode_partial_example =
    decode_partial call_frame (take 25 call_bytes) (9 ∷ []) call_frame-IsFrame
      (unfold Frame.encode MessageHeader.encode to_bits in refl) (omega arith)

decode_sound_example : (call_bytes ≡ Frame.encode call_frame ++ (5 ∷ [])) × IsFrame call_frame
decode_sound_example =
    decode_sound call_bytes call_frame (5 ∷ []) (omega arith)
      (unfold decode MessageHeader.decode of_bits in refl)

handshake_example :
    let (wrote, result) = Session.server_accept_session (Session.client_open_session []).0 0xABCD in
    (result ≡ ok tt)
    × ((Session.client_open_session wrote).1 ≡ ok (record { session_id = 0xABCD; state = running }))
handshake_example = Handshake.handshake 0xABCD [] (omega arith)

handshake_refuses_version_example :
    let (wrote, result) =
      Session.server_accept_session (Frame.encode (Handshake.request (pos 999))) 1 in
    (result ≡ err (unsupported_protocol_version (pos 999)))
    × ((Session.client_open_session wrote).1
        ≡ err (Session.session_rejected StatusReason.unsupported_protocol_version))
handshake_refuses_version_example =
    Handshake.handshake_refuses_version (pos 999) 1 (omega arith) (omega arith) (λ e. cc e)

read_frame-decode_example : read_frame call_bytes ≡ as_read (decode call_bytes)
read_frame-decode_example = read_frame-decode call_bytes
