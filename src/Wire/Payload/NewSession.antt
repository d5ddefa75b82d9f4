-- ===== src/Wire/Payload/NewSession.antt =====
-- `NewSessionPayload`: the body of CTRL_NEW_SESSION.
use hla4_rs.Prelude.{ℕ, List, length, slice, ltb, if◌then◌else◌, Result, ok, err}
use hla4_rs.Prelude.Int.{ℤ}
use hla4_rs.Wire.Bytes.{i32_be, i32_from_be_bytes}
use hla4_rs.Wire.MessageType.{FrameError, truncated, federate_protocol_version}

pub record NewSession : Type 0 where
  pub protocol_version : ℤ

abbrev pub size : ℕ
size = 4

abbrev pub current : NewSession
current = record { protocol_version = federate_protocol_version }

unfoldable pub encode : NewSession → List ℕ
encode p = i32_be p.protocol_version

unfoldable pub decode : List ℕ → Result FrameError NewSession
decode bytes =
    if ltb (length bytes) 4
    then err (truncated 4 (length bytes))
    else ok (record { protocol_version = i32_from_be_bytes (slice 0 4 bytes) })
