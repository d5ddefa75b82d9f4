-- ===== src/Wire/Codec/Stream.antt =====
-- The codec on a stream: whole frames, partial frames, and what a decoded frame says of the bytes.
use hla4_rs.Prelude.{
  ℕ, ◌+◌, ◌≤◌, ◌<◌, ◌≡◌, refl, sym, ap, ◌∙◌, List, [], ◌++◌, none, some, arith, length, take, drop,
  All, ok, ltb-false, lt→ltb, length-append, take-append, drop-append, take_prefix, take-take,
  take-append-drop, All-take, length-take, length-drop, dec_lt,
}
use hla4_rs.Wire.Bytes.{IsByte, from_be_bytes, from_be_bytes-be32}
use hla4_rs.Wire.MessageType.{header_size}
use hla4_rs.Wire.MessageHeader
use hla4_rs.Wire.MessageHeader.{IsHeader}
use hla4_rs.Wire.MessageHeader.RoundTrip.{
  decode-encode, length-encode, encode_of_decode, decode-Decoded, decode-IsHeader,
}
use hla4_rs.Wire.Frame
use hla4_rs.Wire.Frame.{Frame}
use hla4_rs.Wire.Codec.{max_packet_size, open_packet, decode}

-- A frame that may be sent: its size field is the size, and within the cap.
pub record IsFrame (f : Frame) : Type 0 where
  pub header_ok : IsHeader f.header
  pub size_eq : f.header.packet_size ≡ header_size + length f.payload
  pub size_cap : f.header.packet_size ≤ max_packet_size

length-encode_frame : (f : Frame) → IsFrame f → length (Frame.encode f) ≡ f.header.packet_size
unfolding Frame.encode
length-encode_frame f v = omega (
  arith,
  length-append (MessageHeader.encode f.header) f.payload,
  length-encode f.header,
  v.size_eq,
)

open_packet-encode : (f : Frame) → IsFrame f → open_packet (Frame.encode f) ≡ ok f
unfolding open_packet Frame.encode
open_packet-encode f v =
    let cut : take header_size (MessageHeader.encode f.header ++ f.payload)
        ≡ MessageHeader.encode f.header ++ [] =
      (unfold MessageHeader.encode in refl) in
    let rest : drop header_size (MessageHeader.encode f.header ++ f.payload) ≡ f.payload =
      (unfold MessageHeader.encode in refl) in
    rw (cut, decode-encode f.header [] v.header_ok (omega (arith, v.size_eq)), rest)

-- The first four bytes are the size.
size_prefix :
    (f : Frame) (rest : List ℕ)
    → IsFrame f
    → from_be_bytes (take 4 (Frame.encode f ++ rest)) ≡ f.header.packet_size
unfolding Frame.encode MessageHeader.encode
size_prefix f rest v = from_be_bytes-be32 f.header.packet_size v.header_ok.packet_size_range

-- Whatever follows it in the buffer, a frame is decoded as it was encoded, and exactly its bytes
-- are taken.
pub decode-encode_frame :
    (f : Frame) (rest : List ℕ) → IsFrame f → decode (Frame.encode f ++ rest) ≡ (ok (some f), rest)
unfolding decode
decode-encode_frame f rest v =
    let size = length-encode_frame f v in
    let total = length-append (Frame.encode f) rest in
    rw (
      size_prefix f rest v,
      ltb-false (length (Frame.encode f ++ rest)) 4 (omega (arith, v.size_eq)),
      ltb-false f.header.packet_size header_size (omega (arith, v.size_eq)),
      ltb-false max_packet_size f.header.packet_size v.size_cap,
      ltb-false (length (Frame.encode f ++ rest)) f.header.packet_size (omega arith),
      take-append f.header.packet_size (Frame.encode f) rest (sym size),
      drop-append f.header.packet_size (Frame.encode f) rest (sym size),
      open_packet-encode f v,
    )

size_own : (f : Frame) → IsFrame f → from_be_bytes (take 4 (Frame.encode f)) ≡ f.header.packet_size
unfolding Frame.encode MessageHeader.encode
size_own f v = from_be_bytes-be32 f.header.packet_size v.header_ok.packet_size_range

-- A buffer that holds only a beginning of a frame is left as it is, and more bytes are asked for:
-- a poll that is dropped at any point loses nothing.
pub decode_partial :
    (f : Frame) (p q : List ℕ)
    → IsFrame f
    → p ++ q ≡ Frame.encode f
    → 0 < length q
    → decode p ≡ (ok none, p)
unfolding decode
decode_partial f p q v cut more = elim (dec_lt (length p) 4) [
  | yes short ↦ rw (lt→ltb (length p) 4 short)
  | no long ↦
      let size : from_be_bytes (take 4 p) ≡ f.header.packet_size =
        rw (sym (take_prefix 4 p q (omega arith)), cut) (size_own f v) in
      let total = length-encode_frame f v in
      let parts : length p + length q ≡ length (Frame.encode f) =
        sym (length-append p q) ∙ ap length cut in
      rw (
        size,
        ltb-false (length p) 4 (omega arith),
        ltb-false f.header.packet_size header_size (omega (arith, v.size_eq)),
        ltb-false max_packet_size f.header.packet_size v.size_cap,
        lt→ltb (length p) f.header.packet_size (omega arith),
      )
]

-- The facts that a decoded frame leaves behind.
record Taken (src : List ℕ) (f : Frame) (rest : List ℕ) : Type 0 where
  covers : header_size ≤ from_be_bytes (take 4 src)
  cap : from_be_bytes (take 4 src) ≤ max_packet_size
  held : from_be_bytes (take 4 src) ≤ length src
  opened : open_packet (take (from_be_bytes (take 4 src)) src) ≡ ok f
  left : drop (from_be_bytes (take 4 src)) src ≡ rest

decode-Taken :
    (src : List ℕ) (f : Frame) (rest : List ℕ) → decode src ≡ (ok (some f), rest) → Taken src f rest
unfolding decode
decode-Taken src f rest e = ground arith

opened_parts :
    (packet : List ℕ) (f : Frame)
    → open_packet packet ≡ ok f
    → (MessageHeader.decode (take header_size packet) ≡ ok f.header)
      × (f.payload ≡ drop header_size packet)
unfolding open_packet
opened_parts packet f e = ground arith

-- A frame that comes out of a byte buffer is a well-formed frame, and the buffer held its encoding
-- followed by what is left: no other bytes decode to it, and no byte is lost.
pub decode_sound :
    (src : List ℕ) (f : Frame) (rest : List ℕ)
    → All IsByte src
    → decode src ≡ (ok (some f), rest)
    → (src ≡ Frame.encode f ++ rest) × IsFrame f
unfolding Frame.encode
decode_sound src f rest byte e =
    let t = decode-Taken src f rest e in
    let n = from_be_bytes (take 4 src) in
    let packet = take n src in
    let (header_ok, payload_ok) = opened_parts packet f t.opened in
    let own = All-take IsByte header_size packet (All-take IsByte n src byte) in
    let cut = take-take header_size header_size packet (omega arith) in
    let encoded = encode_of_decode (take header_size packet) f.header own header_ok ∙ cut in
    let d = decode-Decoded (take header_size packet) f.header header_ok in
    let size : f.header.packet_size ≡ n =
      d.packet_size_eq
      ∙ ap from_be_bytes (
          take-take 4 header_size packet (omega arith)
          ∙ take-take 4 n src (omega (arith, t.covers))) in
    (
      rw (encoded, payload_ok, take-append-drop header_size packet, ← t.left)
          (sym (take-append-drop n src)),
      record {
        header_ok = decode-IsHeader (take header_size packet) f.header own header_ok;
        size_eq = rw payload_ok (
            omega
              (arith, size, t.covers, t.held, length-drop header_size packet, length-take n src));
        size_cap = rw size t.cap;
      },
    )
