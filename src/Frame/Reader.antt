-- ===== src/Frame/Reader.antt =====
-- `FrameReader` of crates/strajer-w3gs/src/frame.rs, over tokio's `AsyncRead`.
pub mod Streams
use strajer.Common.{
  ℕ, zero, suc, ◌+◌, ◌-◌, ◌≤◌, ◌<◌, ◌≡◌, ◌≢◌, refl, List, [], ◌∷◌, ◌++◌, Option, none, some, arith,
  Result, ok, err, ◌>>=◌, ◌>>◌, length, length-append, take, drop, All, map, flatten,
  take-length_append, drop-length_append,
}
use strajer.Common.Bytes.{Bytes, at, from_le_bytes-to_le_bytes, to_le_bytes}
use strajer.Frame.{
  Frame, FrameHeader, FrameError, IoError, unexpected_eof, io, decode_header, to_bytes,
  frame_header_length, validate_maximum_frame_length, validate_declared_frame_length,
}

-- The two operations of the stream that the code calls. `read n` fills a buffer of `n` bytes as far
-- as it can and returns what it wrote; `read_exact n` returns `n` bytes or an error.
pub record AsyncRead : Type 1 where
  pub Source : Type 0
  pub read : ℕ → Source → Result IoError Bytes × Source
  pub read_exact : ℕ → Source → Result IoError Bytes × Source

-- The documented behaviour of a stream on which the transport does not fail: `contents` is what it
-- still delivers before its end, in fragments of any size.
pub record Delivers (r : AsyncRead) : Type 0 where
  pub contents : r.Source → Bytes
  pub read_end : (s : r.Source) → contents s ≡ [] → (r.read 1 s).0 ≡ ok []
  pub read_byte :
      (s : r.Source) (b : ℕ) (rest : Bytes)
      → contents s ≡ b ∷ rest
      → ((r.read 1 s).0 ≡ ok (b ∷ [])) × (contents (r.read 1 s).1 ≡ rest)
  pub exact :
      (n : ℕ) (s : r.Source) (front rest : Bytes)
      → n ≡ length front
      → contents s ≡ front ++ rest
      → ((r.read_exact n s).0 ≡ ok front) × (contents (r.read_exact n s).1 ≡ rest)
  pub exact_short :
      (n : ℕ) (s : r.Source) → length (contents s) < n → (r.read_exact n s).0 ≡ err unexpected_eof

pub record FrameReader : Type 0 where
  pub maximum_frame_length : ℕ

-- `FrameReader::new`.
unfoldable pub new : ℕ → Result FrameError FrameReader
unfolding validate_maximum_frame_length
new maximum = do
  validate_maximum_frame_length maximum
  ok (record { maximum_frame_length = maximum })

-- The rest of `read_next`, once a first byte has been read.
module _ (r : AsyncRead) (reader : FrameReader) where
  open r use {Source, read, read_exact}

  read_payload : FrameHeader → Source → Result FrameError (Option Frame) × Source
  read_payload header s =
      let (payload, s') = read_exact (header.frame_length - frame_header_length) s in
      elim payload [
        | err e ↦ (err (io e), s')
        | ok bytes ↦ (ok (some (record { header = header; payload = bytes })), s')
      ]

  checked_header : ℕ → Bytes → Result FrameError FrameHeader
  unfolding decode_header validate_declared_frame_length
  checked_header b0 rest = do
    header ← decode_header b0 (at rest 0) (at rest 1) (at rest 2)
    validate_declared_frame_length header.frame_length reader.maximum_frame_length
    ok header

  read_rest : ℕ → Source → Result FrameError (Option Frame) × Source
  read_rest b0 s =
      let (header_bytes, s') = read_exact (frame_header_length - 1) s in
      elim header_bytes [
        | err e ↦ (err (io e), s')
        | ok rest ↦ elim (checked_header b0 rest) [
          | err e ↦ (err e, s')
          | ok header ↦ read_payload header s'
        ]
      ]

  pub read_next : Source → Result FrameError (Option Frame) × Source
  read_next s =
      let (first, s') = read 1 s in
      elim first [
        | err e ↦ (err (io e), s')
        | ok [] ↦ (ok none, s')
        | ok (b0 ∷ _) ↦ read_rest b0 s'
      ]
