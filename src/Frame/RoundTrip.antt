-- ===== src/Frame/RoundTrip.antt =====
-- `Frame::decode_exact` against `Frame::to_bytes`.
use strajer.Common.{ℕ, ◌≤◌, ◌≡◌, [], ◌∷◌, arith, ok, All}
use strajer.Common.Bytes.{Bytes, IsByte, from_le_bytes-to_le_bytes, to_le_bytes-from_le_bytes}
use strajer.Frame.{Frame, decode_exact, to_bytes, max_wire_frame_length}
use strajer.Frame.Shape.{IsFrame}

-- A truthful frame is read back from its bytes under every maximum that admits it.
pub decode_exact-to_bytes :
    (f : Frame) (maximum : ℕ)
    → IsFrame f
    → f.frame_length ≤ maximum
    → maximum ≤ max_wire_frame_length
    → decode_exact (to_bytes f) maximum ≡ ok f
unfolding decode_exact to_bytes
decode_exact-to_bytes f maximum v low high =
    ground (arith, from_le_bytes-to_le_bytes 2 f.frame_length (omega arith))

-- What `decode_exact` accepts is a truthful frame within the maximum, and its bytes are exactly the
-- input.
pub decode_exact_sound :
    (bytes : Bytes) (maximum : ℕ) (f : Frame)
    → All IsByte bytes
    → decode_exact bytes maximum ≡ ok f
    → IsFrame f × (f.frame_length ≤ maximum) × (to_bytes f ≡ bytes)
unfolding decode_exact to_bytes
decode_exact_sound [] maximum f h e = ground arith
decode_exact_sound (b0 ∷ []) maximum f h e = ground arith
decode_exact_sound (b0 ∷ b1 ∷ []) maximum f h e = ground arith
decode_exact_sound (b0 ∷ b1 ∷ b2 ∷ []) maximum f h e = ground arith
decode_exact_sound (b0 ∷ b1 ∷ b2 ∷ b3 ∷ rest) maximum f h e =
    ground (arith, to_le_bytes-from_le_bytes (b2 ∷ b3 ∷ []))
