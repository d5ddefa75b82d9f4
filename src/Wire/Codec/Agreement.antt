-- ===== src/Wire/Codec/Agreement.antt =====
-- The two readers of the codec agree.
use hla4_rs.Prelude.{
  ℕ, ◌+◌, ◌-◌, ◌≤◌, ◌≡◌, refl, List, ◌++◌, Option, none, some, arith, length, take, drop, Result,
  ok, err, ◌>>=◌, length-drop, take_add, drop_add, Bool-cases, ltb, inl, inr, sym, ap, ◌∙◌,
}
use hla4_rs.Wire.Bytes.{from_be_bytes}
use hla4_rs.Wire.MessageType.{header_size}
use hla4_rs.Wire.Frame.{Frame}
use hla4_rs.Wire.Codec.{
  CodecError, unexpected_eof, open_packet, decode, read_frame, max_packet_size,
}

-- A poll of the codec read as a blocking read: to want more bytes at the end is an early end.
unfoldable pub as_read :
    Result CodecError (Option Frame) × List ℕ → Result CodecError (Frame × List ℕ)
as_read (ok none, rest) = err unexpected_eof
as_read (ok (some f), rest) = ok (f, rest)
as_read (err e, rest) = err e

as_read-bind :
    (r : Result CodecError Frame) (rest : List ℕ)
    → as_read ((r >>= λ f. ok (some f)), rest) ≡ (r >>= λ f. ok (f, rest))
unfolding as_read
as_read-bind (ok f) rest = refl
as_read-bind (err e) rest = refl

-- The reader's second test and its cuts, after the first four bytes, are the codec's on the whole.
same_wait :
    (n : ℕ) (reader : List ℕ)
    → 4 ≤ n
    → 4 ≤ length reader
    → ltb (length (drop 4 reader)) (n - 4) ≡ ltb (length reader) n
same_wait n reader h k = ground (arith, length-drop 4 reader)

same_cut :
    (n : ℕ) (reader : List ℕ)
    → 4 ≤ n
    → take 4 reader ++ take (n - 4) (drop 4 reader) ≡ take n reader
same_cut n reader h =
    let sum : 4 + (n - 4) ≡ n = omega arith in
    take_add 4 (n - 4) reader ∙ ap (λ k. take k reader) sum

same_rest : (n : ℕ) (reader : List ℕ) → 4 ≤ n → drop (n - 4) (drop 4 reader) ≡ drop n reader
same_rest n reader h =
    let sum : 4 + (n - 4) ≡ n = omega arith in
    drop_add 4 (n - 4) reader ∙ ap (λ k. drop k reader) sum

-- On every stream, `read_frame` returns what the codec decodes from the same bytes: the same frame
-- with the same rest, or the same error, where the codec's wish for more bytes is an early end.
pub read_frame-decode : (reader : List ℕ) → read_frame reader ≡ as_read (decode reader)
unfolding read_frame decode as_read
read_frame-decode reader =
    let n = from_be_bytes (take 4 reader) in
    elim (Bool-cases (ltb (length reader) 4)) [
      | inl short ↦ rw short
      | inr enough ↦ elim (Bool-cases (ltb n header_size)) [
        | inl small ↦ rw (enough, small)
        | inr covers ↦ elim (Bool-cases (ltb max_packet_size n)) [
          | inl large ↦ rw (enough, covers, large)
          | inr capped ↦
              let min : 4 ≤ n = ground arith in
              let wait = same_wait n reader min (ground arith) in
              elim (Bool-cases (ltb (length reader) n)) [
                | inl waits ↦ rw (enough, covers, capped, wait, waits)
                | inr full ↦
                    rw
                      (
                        enough,
                        covers,
                        capped,
                        wait,
                        full,
                        same_cut n reader min,
                        same_rest n reader min,
                      )
                      (sym (as_read-bind (open_packet (take n reader)) (drop n reader)))
              ]
        ]
      ]
    ]
