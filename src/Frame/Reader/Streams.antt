-- ===== src/Frame/Reader/Streams.antt =====
-- `FrameReader::read_next` on a stream that holds encoded frames one after the other.
use strajer.Common.{
  ℕ, ◌-◌, ◌≤◌, ◌≡◌, ◌≢◌, refl, List, [], ◌∷◌, ◌++◌, none, some, arith, ok, err, length,
  length-append, ap, ◌∙◌, All,
}
use strajer.Common.Bytes.{Bytes, from_le_bytes-to_le_bytes, to_le_bytes}
use strajer.Frame.{Frame, unexpected_eof, io, to_bytes}
use strajer.Frame.Shape.{IsFrame}
use strajer.Frame.Reader.{
  AsyncRead, Delivers, FrameReader, read_next, read_rest, read_payload, checked_header,
}

-- The bytes of frames that are written one after the other.
abbrev pub encode_all : List Frame → Bytes
encode_all [] = []
encode_all (f ∷ fs) = to_bytes f ++ encode_all fs

split_header :
    (f : Frame) (b0 b1 b2 b3 : ℕ) (front back : Bytes)
    → to_bytes f ≡ b0 ∷ b1 ∷ b2 ∷ b3 ∷ (front ++ back)
    → (f.payload ≡ front ++ back)
      × (b0 ∷ b1 ∷ b2 ∷ b3 ∷ front ≡ 0xF7 ∷ f.packet_id ∷ (to_le_bytes 2 f.frame_length ++ front))
unfolding to_bytes
split_header f b0 b1 b2 b3 front back e = ground arith

module _ (r : AsyncRead) (d : Delivers r) (reader : FrameReader) where
  open d use {contents}

  checked_header_lem :
      (f : Frame)
      → IsFrame f
      → f.frame_length ≤ reader.maximum_frame_length
      → checked_header r reader 0xF7 (f.packet_id ∷ to_le_bytes 2 f.frame_length) ≡ ok f.header
  unfolding checked_header
  checked_header_lem f v h =
      ground (arith, from_le_bytes-to_le_bytes 2 f.frame_length (omega arith))

  read_payload_lem :
      (f : Frame) (rest : Bytes) (s : r.Source)
      → IsFrame f
      → contents s ≡ f.payload ++ rest
      → ((read_payload r reader f.header s).0 ≡ ok (some f))
        × (contents (read_payload r reader f.header s).1 ≡ rest)
  unfolding read_payload
  read_payload_lem f rest s v e =
      ground (arith, d.exact (f.frame_length - 4) s f.payload rest (omega (arith, v.exact)) e)

  -- A frame at the head of the stream is returned, and the stream is left just behind it.
  pub read_next-to_bytes :
      (f : Frame) (rest : Bytes) (s : r.Source)
      → IsFrame f
      → f.frame_length ≤ reader.maximum_frame_length
      → contents s ≡ to_bytes f ++ rest
      → ((read_next r reader s).0 ≡ ok (some f)) × (contents (read_next r reader s).1 ≡ rest)
  unfolding read_next read_rest to_bytes
  read_next-to_bytes f rest s v h e =
      let size = to_le_bytes 2 f.frame_length in
      let s1 = (r.read 1 s).1 in
      let s2 = (r.read_exact 3 s1).1 in
      ground (
        arith,
        d.read_byte s 0xF7 (f.packet_id ∷ (size ++ f.payload ++ rest)),
        d.exact 3 s1 (f.packet_id ∷ size) (f.payload ++ rest),
        checked_header_lem f v h,
        read_payload_lem f rest s2 v,
      )

  -- The calls of `read_next` from `s` on return these frames one by one, and then the end.
  abbrev pub Reads : List Frame → r.Source → Type 0
  Reads [] s = (read_next r reader s).0 ≡ ok none
  Reads (f ∷ fs) s = ((read_next r reader s).0 ≡ ok (some f)) × Reads fs (read_next r reader s).1

  abbrev pub Fits : Frame → Type 0
  Fits f = IsFrame f × (f.frame_length ≤ reader.maximum_frame_length)

  -- However the stream is cut into fragments, frames that were written one after the other are read
  -- back one call at a time, in order and without over-reading, and the next call sees the end.
  pub read_next-stream :
      (fs : List Frame) (s : r.Source) → All Fits fs → contents s ≡ encode_all fs → Reads fs s
  read_next-stream [] s h e = unfold read_next in ground (arith, d.read_end s e)
  read_next-stream (f ∷ fs) s h e =
      let (head, left) = read_next-to_bytes f (encode_all fs) s h.0.0 h.0.1 e in
      (head, read_next-stream fs _ h.1 left)

  read_next_cut :
      (f : Frame) (front back : Bytes) (s : r.Source)
      → IsFrame f
      → f.frame_length ≤ reader.maximum_frame_length
      → f.payload ≡ front ++ back
      → back ≢ []
      → contents s ≡ 0xF7 ∷ f.packet_id ∷ (to_le_bytes 2 f.frame_length ++ front)
      → (read_next r reader s).0 ≡ err (io unexpected_eof)
  unfolding read_next read_rest read_payload
  read_next_cut f front back s v h e cut whole =
      let size = to_le_bytes 2 f.frame_length in
      let s1 = (r.read 1 s).1 in
      let s2 = (r.read_exact 3 s1).1 in
      ground (
        arith,
        d.read_byte s 0xF7 (f.packet_id ∷ (size ++ front)),
        d.exact 3 s1 (f.packet_id ∷ size) front,
        checked_header_lem f v h,
        d.exact_short (f.frame_length - 4) s2,
        ap length e,
        length-append front back,
      )

  -- A stream that ends inside a frame, behind its first byte, is an error of the transport and never
  -- a frame or an end.
  pub read_next_truncated :
      (f : Frame) (front : Bytes) (back : Bytes) (s : r.Source)
      → IsFrame f
      → f.frame_length ≤ reader.maximum_frame_length
      → to_bytes f ≡ front ++ back
      → front ≢ []
      → back ≢ []
      → contents s ≡ front
      → (read_next r reader s).0 ≡ err (io unexpected_eof)
  read_next_truncated f [] back s v h e nonempty cut whole = absurd (nonempty refl)
  read_next_truncated f (b0 ∷ []) back s v h e nonempty cut whole =
      unfold read_next read_rest in
      ground (arith, d.read_byte s b0 [] whole, d.exact_short 3 (r.read 1 s).1)
  read_next_truncated f (b0 ∷ b1 ∷ []) back s v h e nonempty cut whole =
      unfold read_next read_rest in
      ground (arith, d.read_byte s b0 _ whole, d.exact_short 3 (r.read 1 s).1)
  read_next_truncated f (b0 ∷ b1 ∷ b2 ∷ []) back s v h e nonempty cut whole =
      unfold read_next read_rest in
      ground (arith, d.read_byte s b0 _ whole, d.exact_short 3 (r.read 1 s).1)
  read_next_truncated f (b0 ∷ b1 ∷ b2 ∷ b3 ∷ front) back s v h e nonempty cut whole =
      let (payload, header) = split_header f b0 b1 b2 b3 front back e in
      read_next_cut f front back s v h payload cut (whole ∙ header)
