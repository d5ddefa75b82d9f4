-- ===== src/Wire/Codec.antt =====
-- crates/hla-wire/src/codec.rs: `FedProCodec`, `read_frame` and `write_frame`.
-- A buffer and a stream are the bytes that they hold; capacity hints leave no trace. `read_exact`
-- on a stream that ends too early is the error `unexpected_eof`.
pub mod Stream
pub mod Agreement
use hla4_rs.Prelude.{
  ℕ, ◌-◌, ◌*◌, List, ◌++◌, Option, none, some, length, take, drop, ltb, if◌then◌else◌, Result, ok,
  err, ◌>>=◌, map_err,
}
use hla4_rs.Wire.Bytes.{from_be_bytes}
use hla4_rs.Wire.MessageType.{FrameError, packet_too_small, header_size}
use hla4_rs.Wire.MessageHeader
use hla4_rs.Wire.Frame
use hla4_rs.Wire.Frame.{Frame}

pub data CodecError : Type 0 where
  unexpected_eof : CodecError
  frame : FrameError → CodecError
  packet_too_large : ℕ → CodecError

abbrev pub max_packet_size : ℕ
max_packet_size = 32 * 1024 * 1024

-- The header and the payload of a whole packet.
unfoldable pub open_packet : List ℕ → Result CodecError Frame
open_packet packet = do
  header ← map_err frame (MessageHeader.decode (take header_size packet))
  ok (record { header = header; payload = drop header_size packet })

-- `Decoder::decode`: the result, and what stays in the buffer. `none` asks for more bytes.
unfoldable pub decode : List ℕ → Result CodecError (Option Frame) × List ℕ
unfolding open_packet
decode src =
    let packet_size = from_be_bytes (take 4 src) in
    if ltb (length src) 4
    then (ok none, src)
    else if ltb packet_size header_size
    then (err (frame (packet_too_small packet_size)), src)
    else if ltb max_packet_size packet_size
    then (err (packet_too_large packet_size), src)
    else if ltb (length src) packet_size
    then (ok none, src)
    else ((do f ← open_packet (take packet_size src); ok (some f)), drop packet_size src)

-- `Encoder::encode`: the destination with the frame behind what it held.
unfoldable pub encode : Frame → List ℕ → List ℕ
unfolding Frame.encode
encode f dst = dst ++ Frame.encode f

-- The frame, and what the stream holds after it.
unfoldable pub read_frame : List ℕ → Result CodecError (Frame × List ℕ)
unfolding open_packet
read_frame reader =
    let packet_size = from_be_bytes (take 4 reader) in
    if ltb (length reader) 4
    then err unexpected_eof
    else if ltb packet_size header_size
    then err (frame (packet_too_small packet_size))
    else if ltb max_packet_size packet_size
    then err (packet_too_large packet_size)
    else if ltb (length (drop 4 reader)) (packet_size - 4)
    then err unexpected_eof
    else do
      f ← open_packet (take 4 reader ++ take (packet_size - 4) (drop 4 reader))
      ok (f, drop (packet_size - 4) (drop 4 reader))

-- What the writer has taken, with the frame behind it.
unfoldable pub write_frame : List ℕ → Frame → List ℕ
unfolding Frame.encode
write_frame written f = written ++ Frame.encode f
