-- ===== src/Frame.antt =====
-- crates/strajer-w3gs/src/frame.rs: the frame that carries every W3GS packet, a header of four
-- bytes (signature, packet id, little-endian length of the whole frame) and a payload.
-- `usize` is taken to have 64 bits. `FrameReader::read_next` reads from tokio's `AsyncRead`, which is
-- the parameter `AsyncRead` of the module Frame/Reader.
pub mod Shape
pub mod RoundTrip
pub mod Reader
use strajer.Common.{
  ℕ, ◌+◌, ◌-◌, ◌%◌, ◌^◌, Bool, true, false, not, ◌&&◌, ◌||◌, List, [], ◌∷◌, ◌++◌, none, some,
  Option, ltb, leb, ◌==◌, if◌then◌else◌, Result, ok, err, ◌>>=◌, ◌>>◌, reject_if, ok_or,
  checked_add, length, drop,
}
use strajer.Common.Bytes.{Bytes, u16_max, u64_max, to_le_bytes, from_le_bytes, at}

abbrev pub w3gs_signature : ℕ
w3gs_signature = 0xF7

abbrev pub frame_header_length : ℕ
frame_header_length = 4

abbrev pub max_wire_frame_length : ℕ
max_wire_frame_length = u16_max

pub record FrameHeader : Type 0 where
  pub packet_id : ℕ
  pub frame_length : ℕ

pub record Frame : Type 0 where
  pub header : FrameHeader
  pub open header use *
  pub payload : Bytes

-- What `std::io::Error` tells the callers of this file.
pub data IoError : Type 0 where
  unexpected_eof : IoError
  other : ℕ → IoError

pub data FrameError : Type 0 where
  invalid_signature : (actual : ℕ) → FrameError
  invalid_frame_length : (actual : ℕ) → FrameError
  invalid_maximum_frame_length : (actual : ℕ) → FrameError
  frame_too_large : (actual maximum : ℕ) → FrameError
  truncated_header : (actual : ℕ) → FrameError
  frame_length_mismatch : (declared actual : ℕ) → FrameError
  io : IoError → FrameError

-- `FrameHeader::decode`, on the four bytes of its array.
unfoldable pub decode_header : ℕ → ℕ → ℕ → ℕ → Result FrameError FrameHeader
decode_header b0 b1 b2 b3 =
    let frame_length = from_le_bytes (b2 ∷ b3 ∷ []) in
    if not (b0 == w3gs_signature)
    then err (invalid_signature b0)
    else if ltb frame_length frame_header_length
    then err (invalid_frame_length frame_length)
    else ok (record { packet_id = b1; frame_length = frame_length })

-- `Frame::new`. `as u16` keeps the low sixteen bits.
unfoldable pub new : ℕ → Bytes → Result FrameError Frame
new packet_id payload = do
  frame_length ←
      ok_or (checked_add u64_max frame_header_length (length payload))
        (frame_too_large u64_max max_wire_frame_length)
  reject_if (ltb max_wire_frame_length frame_length)
      (frame_too_large frame_length max_wire_frame_length)
  ok (record {
    header = record { packet_id = packet_id; frame_length = frame_length % 2 ^ 16 };
    payload = payload;
  })

unfoldable pub validate_maximum_frame_length : ℕ → Result FrameError (Unit {0})
validate_maximum_frame_length maximum =
    reject_if (not (leb frame_header_length maximum && leb maximum max_wire_frame_length))
      (invalid_maximum_frame_length maximum)

unfoldable pub validate_declared_frame_length : ℕ → ℕ → Result FrameError (Unit {0})
validate_declared_frame_length frame_length maximum =
    reject_if (ltb maximum frame_length) (frame_too_large frame_length maximum)

unfoldable pub decode_exact : Bytes → ℕ → Result FrameError Frame
unfolding decode_header validate_maximum_frame_length validate_declared_frame_length
decode_exact bytes maximum = do
  validate_maximum_frame_length maximum
  reject_if (ltb (length bytes) frame_header_length) (truncated_header (length bytes))
  header ← decode_header (at bytes 0) (at bytes 1) (at bytes 2) (at bytes 3)
  validate_declared_frame_length header.frame_length maximum
  reject_if (not (length bytes == header.frame_length))
      (frame_length_mismatch header.frame_length (length bytes))
  ok (record { header = header; payload = drop frame_header_length bytes })

unfoldable pub to_bytes : Frame → Bytes
to_bytes f = w3gs_signature ∷ f.packet_id ∷ (to_le_bytes 2 f.frame_length ++ f.payload)
