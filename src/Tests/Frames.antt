-- ===== src/Tests/Frames.antt =====
-- Frames, streams and tunnel messages: a stream that is a list of bytes, and an action frame.
use strajer.Common.{
  ℕ, ◌≤◌, ◌<◌, ◌≡◌, refl, true, false, List, [], ◌∷◌, ◌++◌, arith, ok, err, Result, ◌⊎◌, length,
  length-append, take, drop, take-length_append, drop-length_append, leb,
}
use strajer.Common.Bytes.{Bytes}
use strajer.Frame.{
  Frame, new, frame_too_large, IoError, unexpected_eof, io, to_bytes, decode_exact,
  max_wire_frame_length,
}
use strajer.Frame.Shape.{IsFrame, framed, framed-IsFrame, new_cases}
use strajer.Frame.RoundTrip.{decode_exact-to_bytes, decode_exact_sound}
use strajer.Frame.Reader.{AsyncRead, Delivers, FrameReader, read_next}
use strajer.Frame.Reader.Streams.{encode_all, Reads, read_next-stream, read_next_truncated}

-- A leave request with its four bytes of payload.
abbrev leave_frame : Frame
leave_frame = framed 0x21 (7 ∷ 0 ∷ 0 ∷ 0 ∷ [])

abbrev leave_bytes : Bytes
leave_bytes = 0xF7 ∷ 0x21 ∷ 8 ∷ 0 ∷ 7 ∷ 0 ∷ 0 ∷ 0 ∷ []

abbrev keepalive_frame : Frame
keepalive_frame = framed 0x27 (0 ∷ 1 ∷ 2 ∷ 3 ∷ 4 ∷ [])

leave_frame-IsFrame : IsFrame leave_frame
leave_frame-IsFrame = framed-IsFrame _ _ (omega arith) (omega arith) (omega arith)

keepalive_frame-IsFrame : IsFrame keepalive_frame
keepalive_frame-IsFrame = framed-IsFrame _ _ (omega arith) (omega arith) (omega arith)

to_bytes_test : to_bytes leave_frame ≡ leave_bytes
unfolding to_bytes
to_bytes_test = refl

decode_exact_test : decode_exact leave_bytes 1460 ≡ ok leave_frame
unfolding decode_exact
decode_exact_test = refl

decode_exact-to_bytes_example : decode_exact (to_bytes leave_frame) 1460 ≡ ok leave_frame
decode_exact-to_bytes_example =
    decode_exact-to_bytes leave_frame 1460 leave_frame-IsFrame (omega arith) (omega arith)

decode_exact_sound_example :
    IsFrame leave_frame × (leave_frame.frame_length ≤ 1460) × (to_bytes leave_frame ≡ leave_bytes)
decode_exact_sound_example =
    decode_exact_sound leave_bytes 1460 leave_frame (omega arith) decode_exact_test

abbrev read_list : ℕ → Bytes → Result IoError Bytes × Bytes
read_list n s = (ok (take n s), drop n s)

abbrev read_exact_list : ℕ → Bytes → Result IoError Bytes × Bytes
read_exact_list n s = elim (leb n (length s)) [
  | true ↦ (ok (take n s), drop n s)
  | false ↦ (err unexpected_eof, [])
]

abbrev list_read : AsyncRead
list_read = record { Source = Bytes; read = read_list; read_exact = read_exact_list }

list_exact :
    (n : ℕ) (s front rest : Bytes)
    → n ≡ length front
    → s ≡ front ++ rest
    → ((read_exact_list n s).0 ≡ ok front) × ((read_exact_list n s).1 ≡ rest)
list_exact n s front rest e f = ground (
  arith,
  e,
  f,
  length-append front rest,
  take-length_append front rest,
  drop-length_append front rest,
)

list_read-Delivers : Delivers list_read
list_read-Delivers = record {
  contents = λ s. s;
  read_end = λ s e. ground (arith, e);
  read_byte = λ s b rest e. ground (arith, e);
  exact = list_exact;
  exact_short = λ n s h. ground arith;
}

abbrev game_reader : FrameReader
game_reader = record { maximum_frame_length = 1460 }

abbrev two_frames : List Frame
two_frames = leave_frame ∷ keepalive_frame ∷ []

read_next-stream_example :
    Reads list_read list_read-Delivers game_reader two_frames (encode_all two_frames)
unfolding to_bytes list_read-Delivers
read_next-stream_example =
    read_next-stream list_read list_read-Delivers game_reader two_frames (encode_all two_frames)
      (((leave_frame-IsFrame, omega arith), ((keepalive_frame-IsFrame, omega arith), tt))) refl

read_next_truncated_example :
    (read_next list_read game_reader (0xF7 ∷ 0x21 ∷ 8 ∷ 0 ∷ 7 ∷ [])).0 ≡ err (io unexpected_eof)
unfolding list_read-Delivers
read_next_truncated_example =
    read_next_truncated list_read list_read-Delivers game_reader leave_frame
      (0xF7 ∷ 0x21 ∷ 8 ∷ 0 ∷ 7 ∷ []) (0 ∷ 0 ∷ 0 ∷ []) (0xF7 ∷ 0x21 ∷ 8 ∷ 0 ∷ 7 ∷ [])
      leave_frame-IsFrame (omega arith) to_bytes_test (λ e. cc e) (λ e. cc e) refl

new_cases_example :
    ((8 ≤ max_wire_frame_length) × (new 0x21 (7 ∷ 0 ∷ 0 ∷ 0 ∷ []) ≡ ok leave_frame))
    ⊎ ((max_wire_frame_length < 8)
        × (actual : ℕ) × (max_wire_frame_length < actual)
        × (new 0x21 (7 ∷ 0 ∷ 0 ∷ 0 ∷ []) ≡ err (frame_too_large actual max_wire_frame_length)))
new_cases_example = new_cases 0x21 (7 ∷ 0 ∷ 0 ∷ 0 ∷ [])
