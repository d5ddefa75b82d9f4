-- ===== src/Wire/Session.antt =====
-- crates/hla-wire/src/session.rs: the session handshake. A peer reads a stream of bytes and writes
-- to another; the errors that the handshake never returns are not listed.
pub mod Handshake
use hla4_rs.Prelude.{
  ℕ, List, [], Bool, Option, some, none, if◌then◌else◌, Result, ok, err, ◌>>=◌, map_err, ◌==◌,
}
use hla4_rs.Prelude.Int.{ℤ, eqb}
use hla4_rs.Wire.MessageType.{
  MessageType, ctrl_new_session, ctrl_new_session_status, as_u32, no_sequence_number,
  federate_protocol_version,
}
use hla4_rs.Wire.MessageHeader.{with_payload_size}
use hla4_rs.Wire.Frame.{Frame, new_session_frame}
use hla4_rs.Wire.Payload.StatusReason.{StatusReason, as_i32}
use hla4_rs.Wire.Payload.NewSession
use hla4_rs.Wire.Payload.NewSessionStatus
use hla4_rs.Wire.Codec.{CodecError, frame, read_frame, write_frame}

pub data SessionState : Type 0 where
  new starting running terminating terminated dropped resuming : SessionState

pub data SessionError : Type 0 where
  codec : CodecError → SessionError
  unexpected_message_type : MessageType → MessageType → SessionError
  session_rejected : StatusReason → SessionError
  unsupported_protocol_version : ℤ → SessionError

pub record NewSessionAck : Type 0 where
  pub session_id : ℕ
  pub state : SessionState

-- `==` of the field-less enums compares their codes.
abbrev pub same_type : MessageType → MessageType → Bool
unfolding as_u32
same_type a b = as_u32 a == as_u32 b

abbrev pub same_reason : StatusReason → StatusReason → Bool
unfolding as_i32
same_reason a b = eqb (as_i32 a) (as_i32 b)

unfoldable pub parse_new_session_status : Frame → Result SessionError NewSessionAck
unfolding as_u32 as_i32 NewSessionStatus.decode
parse_new_session_status response =
    let got = response.header.message_type in
    let ack : NewSessionAck = record { session_id = response.header.session_id; state = running } in
    if same_type got ctrl_new_session_status
    then (do
      status ← map_err (λ e. codec (frame e)) (NewSessionStatus.decode response.payload)
      (if same_reason status.reason StatusReason.success
          then ok ack
          else err (session_rejected status.reason)))
    else err (unexpected_message_type got ctrl_new_session_status)

-- The bytes written, and the result from the bytes that come back.
unfoldable pub client_open_session : List ℕ → List ℕ × Result SessionError NewSessionAck
unfolding parse_new_session_status read_frame write_frame
client_open_session incoming = (
  write_frame [] new_session_frame,
  (do (response, rest) ← map_err codec (read_frame incoming); parse_new_session_status response),
)

-- The same over a frame transport: the frame sent, and the result from the frame received.
unfoldable pub client_open_session_frames :
    Result CodecError Frame → Frame × Result SessionError NewSessionAck
unfolding parse_new_session_status
client_open_session_frames received =
    (new_session_frame, (do response ← map_err codec received; parse_new_session_status response))

-- The server's answer to the first frame: the status frame to send and the result to return, or
-- the error that ends the handshake before a frame is sent.
unfoldable pub answer_request :
    Frame → ℕ → Result SessionError (Frame × Result SessionError (Unit {0}))
unfolding as_u32 NewSession.decode NewSessionStatus.encode with_payload_size
answer_request request assigned_session_id =
    let got = request.header.message_type in
    let status_frame = λ (reason : StatusReason).
      (let f : Frame = record {
        header =
            with_payload_size NewSessionStatus.size no_sequence_number assigned_session_id
              request.header.sequence_number ctrl_new_session_status;
        payload = NewSessionStatus.encode (record { reason = reason });
      } in
        f) in
    if same_type got ctrl_new_session
    then (do
      payload ← map_err (λ e. codec (frame e)) (NewSession.decode request.payload)
      (if eqb payload.protocol_version federate_protocol_version
          then ok (status_frame StatusReason.success, ok tt)
          else ok (
            status_frame StatusReason.unsupported_protocol_version,
            err (unsupported_protocol_version payload.protocol_version),
          )))
    else err (unexpected_message_type got ctrl_new_session)

-- What is sent, and what the function returns.
unfoldable pub reply_frames :
    Result SessionError (Frame × Result SessionError (Unit {0}))
    → Option Frame × Result SessionError (Unit {0})
reply_frames (ok (f, result)) = (some f, result)
reply_frames (err e) = (none, err e)

unfoldable pub server_accept_session_frames :
    Result CodecError Frame → ℕ → Option Frame × Result SessionError (Unit {0})
unfolding answer_request reply_frames
server_accept_session_frames received assigned_session_id =
    reply_frames (do request ← map_err codec received; answer_request request assigned_session_id)

unfoldable pub write_reply :
    Option Frame × Result SessionError (Unit {0}) → List ℕ × Result SessionError (Unit {0})
unfolding write_frame
write_reply (some f, result) = (write_frame [] f, result)
write_reply (none, result) = ([], result)

-- The bytes written, and what the function returns, from the bytes that come in.
unfoldable pub server_accept_session : List ℕ → ℕ → List ℕ × Result SessionError (Unit {0})
unfolding answer_request reply_frames write_reply read_frame
server_accept_session incoming assigned_session_id = write_reply (
    reply_frames (do
      (request, rest) ← map_err codec (read_frame incoming)
      answer_request request assigned_session_id))
