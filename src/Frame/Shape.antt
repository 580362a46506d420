-- ===== src/Frame/Shape.antt =====
-- Frames whose header tells the truth: what `Frame::new` and `Frame::decode_exact` build.
use strajer.Common.{ℕ, ◌+◌, ◌≤◌, ◌<◌, ◌≡◌, refl, arith, ok, err, length, All, ◌⊎◌, inl, inr}
use strajer.Common.Bytes.{Bytes, IsByte, u64_max}
use strajer.Frame.{Frame, new, to_bytes, frame_too_large, max_wire_frame_length}
use native.Mathlib.Decide.{dec_lt}

-- The declared length is that of the whole frame, fits the wire, and everything is a byte.
pub record IsFrame (f : Frame) : Type 0 where
  pub exact : f.frame_length ≡ 4 + length f.payload
  pub fits : f.frame_length ≤ max_wire_frame_length
  pub id_byte : IsByte f.packet_id
  pub bytes : All IsByte f.payload

-- The frame that carries a payload under a truthful header.
abbrev pub framed : ℕ → Bytes → Frame
framed packet_id payload = record {
  header = record { packet_id = packet_id; frame_length = 4 + length payload };
  payload = payload;
}

pub framed-IsFrame :
    (packet_id : ℕ) (payload : Bytes)
    → IsByte packet_id
    → All IsByte payload
    → 4 + length payload ≤ max_wire_frame_length
    → IsFrame (framed packet_id payload)
framed-IsFrame packet_id payload id bytes fits = record {
  exact = refl;
  fits = fits;
  id_byte = id;
  bytes = bytes;
}

pub new-framed :
    (packet_id : ℕ) (payload : Bytes)
    → 4 + length payload ≤ max_wire_frame_length
    → new packet_id payload ≡ ok (framed packet_id payload)
unfolding new
new-framed packet_id payload h = ground arith

-- `Frame::new` builds the truthful frame of every payload of at most 65,531 bytes, and of a longer
-- one it reports a length that is over the maximum.
pub new_cases :
    (packet_id : ℕ) (payload : Bytes)
    → ((4 + length payload ≤ max_wire_frame_length)
        × (new packet_id payload ≡ ok (framed packet_id payload)))
      ⊎ ((max_wire_frame_length < 4 + length payload)
          × (actual : ℕ) × (max_wire_frame_length < actual)
          × (new packet_id payload ≡ err (frame_too_large actual max_wire_frame_length)))
unfolding new
new_cases packet_id payload = elim (dec_lt max_wire_frame_length (4 + length payload)) [
  | no fits ↦ inl (omega arith, new-framed packet_id payload (omega arith))
  | yes over ↦ elim (dec_lt u64_max (4 + length payload)) [
    | yes huge ↦ inr (over, u64_max, omega arith, ground arith)
    | no small ↦ inr (over, 4 + length payload, over, ground arith)
  ]
]

pub length-to_bytes : (f : Frame) → IsFrame f → length (to_bytes f) ≡ f.frame_length
unfolding to_bytes
length-to_bytes f h = ground arith
