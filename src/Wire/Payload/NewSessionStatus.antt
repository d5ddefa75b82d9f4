-- ===== src/Wire/Payload/NewSessionStatus.antt =====
-- `NewSessionStatusPayload`: the body of CTRL_NEW_SESSION_STATUS.
use hla4_rs.Prelude.{ℕ, List, length, slice, ltb, if◌then◌else◌, Result, ok, err, ◌>>=◌}
use hla4_rs.Wire.Bytes.{i32_from_be_bytes}
use hla4_rs.Wire.MessageType.{FrameError, truncated}
use hla4_rs.Wire.Payload.StatusReason
use hla4_rs.Wire.Payload.StatusReason.{StatusReason, from_i32}

pub record NewSessionStatus : Type 0 where
  pub reason : StatusReason

abbrev pub size : ℕ
size = 4

unfoldable pub encode : NewSessionStatus → List ℕ
unfolding StatusReason.encode
encode p = StatusReason.encode p.reason

unfoldable pub decode : List ℕ → Result FrameError NewSessionStatus
unfolding from_i32
decode bytes =
    if ltb (length bytes) 4
    then err (truncated 4 (length bytes))
    else do reason ← from_i32 (i32_from_be_bytes (slice 0 4 bytes)); ok (record { reason = reason })
