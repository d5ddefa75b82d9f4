-- ===== src/Wire/Frame.antt =====
-- crates/hla-wire/src/framing.rs: a frame, and the constructors of ready-to-send frames.
use hla4_rs.Prelude.{ℕ, ◌%◌, ◌^◌, List, ◌++◌, length}
use hla4_rs.Prelude.Int.{ℤ}
use hla4_rs.Wire.MessageType.{
  initial_sequence_number, no_session_id, no_sequence_number, ctrl_new_session, ctrl_resume_request,
  hla_call_request,
}
use hla4_rs.Wire.MessageHeader
use hla4_rs.Wire.MessageHeader.{MessageHeader, with_payload_size}
use hla4_rs.Wire.Payload.NewSession
use hla4_rs.Wire.Payload.ResumeRequest

pub record Frame : Type 0 where
  pub header : MessageHeader
  pub payload : List ℕ

unfoldable pub encode : Frame → List ℕ
encode f = MessageHeader.encode f.header ++ f.payload

unfoldable pub new_session_frame : Frame
unfolding with_payload_size NewSession.encode
new_session_frame = record {
  header =
      with_payload_size NewSession.size initial_sequence_number no_session_id no_sequence_number
        ctrl_new_session;
  payload = NewSession.encode NewSession.current;
}

unfoldable pub resume_request_frame : ℕ → ℤ → ℤ → Frame
unfolding with_payload_size ResumeRequest.encode
resume_request_frame session_id last_received_rti oldest_available_federate = record {
  header =
      with_payload_size ResumeRequest.size no_sequence_number session_id last_received_rti
        ctrl_resume_request;
  payload = ResumeRequest.encode (record {
    last_received_rti_sequence_number = last_received_rti;
    oldest_available_federate_sequence_number = oldest_available_federate;
  });
}

-- `protobuf_body.len() as u32`
unfoldable pub hla_call_request_frame : ℤ → ℕ → ℤ → List ℕ → Frame
unfolding with_payload_size
hla_call_request_frame sequence_number session_id last_received protobuf_body = record {
  header =
      with_payload_size (length protobuf_body % 2 ^ 32) sequence_number session_id last_received
        hla_call_request;
  payload = protobuf_body;
}
