-- ===== src/Wire/Payload/StatusReason.antt =====
-- `NewSessionStatusReason`: why the RTI accepts or refuses a session.
use hla4_rs.Prelude.{ℕ, List, if◌then◌else◌, Result, ok, err}
use hla4_rs.Prelude.Int.{ℤ, pos, eqb}
use hla4_rs.Wire.Bytes.{i32_be}
use hla4_rs.Wire.MessageType.{FrameError, invalid_new_session_status_reason}

pub data StatusReason : Type 0 where
  success unsupported_protocol_version out_of_resources bad_message other_error : StatusReason

-- `self as i32`
unfoldable pub as_i32 : StatusReason → ℤ
as_i32 success = pos 0
as_i32 unsupported_protocol_version = pos 1
as_i32 out_of_resources = pos 2
as_i32 bad_message = pos 3
as_i32 other_error = pos 99

unfoldable pub from_i32 : ℤ → Result FrameError StatusReason
from_i32 v =
    if eqb v (pos 0)
    then ok success
    else if eqb v (pos 1)
    then ok unsupported_protocol_version
    else if eqb v (pos 2)
    then ok out_of_resources
    else if eqb v (pos 3)
    then ok bad_message
    else if eqb v (pos 99)
    then ok other_error
    else err (invalid_new_session_status_reason v)

unfoldable pub encode : StatusReason → List ℕ
unfolding as_i32
encode r = i32_be (as_i32 r)
