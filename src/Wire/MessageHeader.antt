-- ===== src/Wire/MessageHeader.antt =====
-- crates/hla-wire/src/framing.rs: the 24-byte frame header.
pub mod RoundTrip
use hla4_rs.Prelude.{
  ℕ, ◌+◌, ◌-◌, ◌%◌, ◌^◌, ◌<◌, List, ◌++◌, ltb, if◌then◌else◌, length, slice, Result, ok, err, ◌>>=◌,
}
use hla4_rs.Prelude.Int.{ℤ}
use hla4_rs.Wire.Bytes.{IsI32, be32, be64, i32_be, from_be_bytes, i32_from_be_bytes}
use hla4_rs.Wire.MessageType.{
  MessageType, FrameError, truncated, packet_too_small, header_size, as_u32, from_u32,
}

pub record MessageHeader : Type 0 where
  pub packet_size : ℕ
  pub sequence_number : ℤ
  pub session_id : ℕ
  pub last_received_sequence_number : ℤ
  pub message_type : MessageType

-- The ranges of the fields' Rust types.
pub record IsHeader (h : MessageHeader) : Type 0 where
  pub packet_size_range : h.packet_size < 2 ^ 32
  pub sequence_number_range : IsI32 h.sequence_number
  pub session_id_range : h.session_id < 2 ^ 64
  pub last_received_range : IsI32 h.last_received_sequence_number

-- The sum is a u32; the release profile wraps.
unfoldable pub with_payload_size : ℕ → ℤ → ℕ → ℤ → MessageType → MessageHeader
with_payload_size payload_size sequence_number session_id last_received message_type = record {
  packet_size = (header_size + payload_size) % 2 ^ 32;
  sequence_number = sequence_number;
  session_id = session_id;
  last_received_sequence_number = last_received;
  message_type = message_type;
}

unfoldable pub payload_size : MessageHeader → ℕ
payload_size h = (h.packet_size + 2 ^ 32 - header_size) % 2 ^ 32

unfoldable pub encode : MessageHeader → List ℕ
unfolding as_u32
encode h =
    be32 h.packet_size
    ++ (i32_be h.sequence_number
        ++ (be64 h.session_id
            ++ (i32_be h.last_received_sequence_number ++ be32 (as_u32 h.message_type))))

unfoldable pub decode : List ℕ → Result FrameError MessageHeader
unfolding from_u32
decode bytes =
    let packet_size = from_be_bytes (slice 0 4 bytes) in
    if ltb (length bytes) header_size
    then err (truncated header_size (length bytes))
    else if ltb packet_size header_size
    then err (packet_too_small packet_size)
    else do
      message_type ← from_u32 (from_be_bytes (slice 20 4 bytes))
      ok (record {
        packet_size = packet_size;
        sequence_number = i32_from_be_bytes (slice 4 4 bytes);
        session_id = from_be_bytes (slice 8 8 bytes);
        last_received_sequence_number = i32_from_be_bytes (slice 16 4 bytes);
        message_type = message_type;
      })
