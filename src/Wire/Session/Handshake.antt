-- ===== src/Wire/Session/Handshake.antt =====
-- The two sides of the handshake together.
use hla4_rs.Prelude.{
  ℕ, ◌<◌, ◌^◌, ◌≡◌, ◌≢◌, refl, sym, ap, ◌∙◌, List, [], ◌++◌, arith, Result, ok, err, if◌then◌else◌,
  Bool-cases, Result-cases, inl, inr, true, false, ◌>>=◌,
}
use mathlib.Core.List.{append-nil}
use hla4_rs.Prelude.Int.{ℤ, eqb, eqb_iff, of_bits, to_bits}
use hla4_rs.Wire.Bytes.{IsI32}
use hla4_rs.Wire.MessageType.{
  MessageType, as_u32, from_u32, no_sequence_number, initial_sequence_number, no_session_id,
  ctrl_new_session, ctrl_new_session_status, federate_protocol_version,
}
use hla4_rs.Wire.MessageType.Codes.{from_u32-as_u32}
use hla4_rs.Prelude.{==_iff}
use hla4_rs.Wire.MessageHeader.{with_payload_size}
use hla4_rs.Wire.Frame
use hla4_rs.Wire.Frame.{Frame, new_session_frame}
use hla4_rs.Wire.Payload.StatusReason.{StatusReason}
use hla4_rs.Wire.Payload.NewSession
use hla4_rs.Wire.Payload.NewSession.{NewSession}
use hla4_rs.Wire.Payload.NewSessionStatus
use hla4_rs.Wire.Payload.RoundTrip.{NewSession-decode-encode}
use hla4_rs.Wire.Codec.{read_frame, write_frame}
use hla4_rs.Wire.Codec.Stream.{IsFrame, decode-encode_frame}
use hla4_rs.Wire.Codec.Agreement.{read_frame-decode, as_read}
use hla4_rs.Wire.Session.{
  SessionError, running, session_rejected, unsupported_protocol_version, unexpected_message_type,
  client_open_session, server_accept_session, server_accept_session_frames, same_type, same_reason,
  reply_frames, write_reply, answer_request, parse_new_session_status,
}

-- A frame that was written is read back, with what follows it.
pub read_frame-encode :
    (f : Frame) (rest : List ℕ) → IsFrame f → read_frame (Frame.encode f ++ rest) ≡ ok (f, rest)
unfolding as_read
read_frame-encode f rest v =
    read_frame-decode (Frame.encode f ++ rest) ∙ ap as_read (decode-encode_frame f rest v)

read_own : (f : Frame) → IsFrame f → read_frame (Frame.encode f) ≡ ok (f, [])
read_own f v = ap read_frame (sym (append-nil (Frame.encode f))) ∙ read_frame-encode f [] v

-- A NEW_SESSION request with the protocol version `version`.
pub request : ℤ → Frame
request version = record {
  header =
      with_payload_size NewSession.size initial_sequence_number no_session_id no_sequence_number
        ctrl_new_session;
  payload = NewSession.encode (record { protocol_version = version });
}

request-IsFrame : (version : ℤ) → IsFrame (request version)
unfolding request with_payload_size NewSession.encode
request-IsFrame version = record {
  header_ok = record {
    packet_size_range = omega arith;
    sequence_number_range = omega arith;
    session_id_range = omega arith;
    last_received_range = omega arith;
  };
  size_eq = omega arith;
  size_cap = omega arith;
}

new_session_frame_lem : new_session_frame ≡ request federate_protocol_version
unfolding request new_session_frame
new_session_frame_lem = refl

-- The status frame with which the server answers a request.
pub status : ℕ → StatusReason → Frame
status session_id reason = record {
  header =
      with_payload_size NewSessionStatus.size no_sequence_number session_id initial_sequence_number
        ctrl_new_session_status;
  payload = NewSessionStatus.encode (record { reason = reason });
}

status-IsFrame : (id : ℕ) (r : StatusReason) → id < 2 ^ 64 → IsFrame (status id r)
unfolding status with_payload_size NewSessionStatus.encode
status-IsFrame id r h = record {
  header_ok = record {
    packet_size_range = omega arith;
    sequence_number_range = omega arith;
    session_id_range = h;
    last_received_range = omega arith;
  };
  size_eq = omega arith;
  size_cap = omega arith;
}

client_request :
    (unread : List ℕ)
    → (client_open_session unread).0 ≡ Frame.encode (request federate_protocol_version)
unfolding client_open_session write_frame
client_request unread = ap Frame.encode new_session_frame_lem

same_type_iff : (a b : MessageType) → same_type a b ≡ true → a ≡ b
unfolding same_type
same_type_iff a b h =
    let code : as_u32 a ≡ as_u32 b = (==_iff (as_u32 a) (as_u32 b)).0 h in
    cc (from_u32-as_u32 a, from_u32-as_u32 b, ap from_u32 code)

answer_other :
    (f : Frame) (id : ℕ)
    → f.header.message_type ≢ ctrl_new_session
    → answer_request f id ≡ err (unexpected_message_type f.header.message_type ctrl_new_session)
unfolding answer_request
answer_other f id ne = elim (Bool-cases (same_type f.header.message_type ctrl_new_session)) [
  | inl same ↦ absurd (ne (same_type_iff _ _ same))
  | inr other ↦ rw other
]

-- What the server does with a request for a version, accepted or not.
abbrev verdict : ℤ → StatusReason × Result SessionError (Unit {0})
verdict v =
    if eqb v federate_protocol_version
    then (StatusReason.success, ok tt)
    else (StatusReason.unsupported_protocol_version, err (unsupported_protocol_version v))

answer_request_lem :
    (v : ℤ) (id : ℕ)
    → IsI32 v
    → answer_request (request v) id ≡ ok (status id (verdict v).0, (verdict v).1)
unfolding answer_request request status
answer_request_lem v id h = elim (Bool-cases (eqb v federate_protocol_version)) [
  | inl current ↦ rw (NewSession-decode-encode (record { protocol_version = v }) h, current)
  | inr other ↦ rw (NewSession-decode-encode (record { protocol_version = v }) h, other)
]

server_lem :
    (v : ℤ) (id : ℕ)
    → IsI32 v
    → server_accept_session (Frame.encode (request v)) id
      ≡ (Frame.encode (status id (verdict v).0), (verdict v).1)
unfolding server_accept_session reply_frames write_reply write_frame
server_lem v id h = rw (read_own (request v) (request-IsFrame v), answer_request_lem v id h)

client_lem :
    (id : ℕ) (r : StatusReason)
    → id < 2 ^ 64
    → (client_open_session (Frame.encode (status id r))).1 ≡ parse_new_session_status (status id r)
unfolding client_open_session
client_lem id r h = rw (read_own (status id r) (status-IsFrame id r h))

parse_lem :
    (id : ℕ) (r : StatusReason)
    → parse_new_session_status (status id r) ≡ (
        if same_reason r StatusReason.success
        then ok (record { session_id = id; state = running })
        else err (session_rejected r))
unfolding parse_new_session_status status with_payload_size NewSessionStatus.encode of_bits to_bits
parse_lem id StatusReason.success = refl
parse_lem id _ = refl

-- Over byte streams, a client and a server end the handshake with the session running under the
-- id that the server assigned, whatever u64 that is.
pub handshake :
    (id : ℕ) (unread : List ℕ)
    → id < 2 ^ 64
    → let (wrote, result) = server_accept_session (client_open_session unread).0 id in
      (result ≡ ok tt)
      × ((client_open_session wrote).1 ≡ ok (record { session_id = id; state = running }))
unfolding same_reason
handshake id unread h =
    let sent = client_request unread in
    let served = server_lem federate_protocol_version id (omega arith) in
    (
      rw (sent, served),
      rw (sent, served) (client_lem id StatusReason.success h ∙ parse_lem id StatusReason.success),
    )

-- A request for any other protocol version is refused on both sides: the server fails with that
-- version, and the client that reads its answer learns that the version is not supported.
pub handshake_refuses_version :
    (v : ℤ) (id : ℕ)
    → IsI32 v
    → id < 2 ^ 64
    → v ≢ federate_protocol_version
    → let (wrote, result) = server_accept_session (Frame.encode (request v)) id in
      (result ≡ err (unsupported_protocol_version v))
      × ((client_open_session wrote).1
          ≡ err (session_rejected StatusReason.unsupported_protocol_version))
unfolding same_reason
handshake_refuses_version v id h range ne =
    let other : eqb v federate_protocol_version ≡ false =
      ground (arith, eqb_iff v federate_protocol_version) in
    let served = server_lem v id h in
    let reason = StatusReason.unsupported_protocol_version in
    (rw (served, other), rw (served, other) (client_lem id reason range ∙ parse_lem id reason))

-- A first frame of any other type ends the handshake with an error, and nothing is written back.
pub server_refuses_type :
    (f : Frame) (id : ℕ)
    → IsFrame f
    → f.header.message_type ≢ ctrl_new_session
    → server_accept_session (Frame.encode f) id
      ≡ ([], err (unexpected_message_type f.header.message_type ctrl_new_session))
unfolding server_accept_session reply_frames write_reply
server_refuses_type f id v ne = rw (read_own f v, answer_other f id ne)

-- The two variants of the server are one: on byte streams it writes the encoding of the frame that
-- the frame variant sends for the first frame of the stream, and returns the same.
pub server_variants :
    (incoming : List ℕ) (id : ℕ)
    → server_accept_session incoming id
      ≡ write_reply (server_accept_session_frames (read_frame incoming >>= λ r. ok r.0) id)
unfolding server_accept_session server_accept_session_frames
server_variants incoming id = elim (Result-cases (read_frame incoming)) [
  | inl ((f, rest), e) ↦ rw e
  | inr (e', e) ↦ rw e
]
