-- ===== src/Wire/MessageType.antt =====
-- crates/hla-wire/src/framing.rs: the constants, the errors and the message types.
-- A u32 or u64 is a natural number below 2^32 or 2^64, an i32 an integer that fits 32 bits.
pub mod Codes
use hla4_rs.Prelude.{ℕ, ◌-◌, ◌^◌, Bool, true, false, ltb, ◌==◌, if◌then◌else◌, Result, ok, err}
use hla4_rs.Prelude.Int.{ℤ, pos, negsuc}

abbrev pub header_size : ℕ
header_size = 24

abbrev pub no_session_id : ℕ
no_session_id = 0

-- i32::MIN
abbrev pub no_sequence_number : ℤ
no_sequence_number = negsuc (2 ^ 31 - 1)

abbrev pub initial_sequence_number : ℤ
initial_sequence_number = pos 0

-- i32::MAX
abbrev pub max_sequence_number : ℤ
max_sequence_number = pos (2 ^ 31 - 1)

abbrev pub federate_protocol_version : ℤ
federate_protocol_version = pos 1

pub data FrameError : Type 0 where
  packet_too_small : ℕ → FrameError
  truncated : ℕ → ℕ → FrameError
  unknown_message_type : ℕ → FrameError
  invalid_new_session_status_reason : ℤ → FrameError

pub data MessageType : Type 0 where
  ctrl_new_session ctrl_new_session_status ctrl_heartbeat ctrl_heartbeat_response : MessageType
  ctrl_terminate_session ctrl_session_terminated : MessageType
  ctrl_resume_request ctrl_resume_status : MessageType
  hla_call_request hla_call_response hla_callback_request hla_callback_response : MessageType

-- `self as u32`
unfoldable pub as_u32 : MessageType → ℕ
as_u32 ctrl_new_session = 1
as_u32 ctrl_new_session_status = 2
as_u32 ctrl_heartbeat = 3
as_u32 ctrl_heartbeat_response = 4
as_u32 ctrl_terminate_session = 5
as_u32 ctrl_session_terminated = 6
as_u32 ctrl_resume_request = 10
as_u32 ctrl_resume_status = 11
as_u32 hla_call_request = 20
as_u32 hla_call_response = 21
as_u32 hla_callback_request = 22
as_u32 hla_callback_response = 23

unfoldable pub from_u32 : ℕ → Result FrameError MessageType
from_u32 value =
    if value == 1
    then ok ctrl_new_session
    else if value == 2
    then ok ctrl_new_session_status
    else if value == 3
    then ok ctrl_heartbeat
    else if value == 4
    then ok ctrl_heartbeat_response
    else if value == 5
    then ok ctrl_terminate_session
    else if value == 6
    then ok ctrl_session_terminated
    else if value == 10
    then ok ctrl_resume_request
    else if value == 11
    then ok ctrl_resume_status
    else if value == 20
    then ok hla_call_request
    else if value == 21
    then ok hla_call_response
    else if value == 22
    then ok hla_callback_request
    else if value == 23
    then ok hla_callback_response
    else err (unknown_message_type value)

unfoldable pub is_control : MessageType → Bool
unfolding as_u32
is_control t = ltb (as_u32 t) (as_u32 hla_call_request)

unfoldable pub is_hla_response : MessageType → Bool
is_hla_response hla_call_response = true
is_hla_response hla_callback_response = true
is_hla_response _ = false
