-- ===== src/Protobuf.antt =====
-- crates/strajer-w3gs/src/protobuf.rs: the envelope of protobuf messages. What prost encodes in it is an
-- argument.
use strajer.Common.{
  ℕ, ◌-◌, Bool, not, ◌||◌, [], ◌∷◌, ◌++◌, ltb, ◌==◌, Result, ok, ◌>>◌, reject_if, map_err, length,
  is_empty, drop,
}
use strajer.Common.Bytes.{Bytes, u32_max, to_le_bytes, from_le_bytes, at}
use strajer.Frame
use strajer.Frame.{Frame, FrameError}

abbrev pub protobuf_packet_id : ℕ
protobuf_packet_id = 0x59

abbrev pub player_profile_message_type : ℕ
player_profile_message_type = 0x03

abbrev pub player_skins_message_type : ℕ
player_skins_message_type = 0x04

abbrev pub player_unknown_5_message_type : ℕ
player_unknown_5_message_type = 0x05

abbrev pub envelope_header_length : ℕ
envelope_header_length = 5

abbrev pub max_battle_tag_bytes : ℕ
max_battle_tag_bytes = 255

pub data ProtobufError : Type 0 where
  invalid_player_id : ProtobufError
  invalid_battle_tag_length : (actual maximum : ℕ) → ProtobufError
  unexpected_packet_id : (actual : ℕ) → ProtobufError
  payload_too_short : (actual minimum : ℕ) → ProtobufError
  data_length_mismatch : (declared actual : ℕ) → ProtobufError
  data_too_large : ProtobufError
  frame : FrameError → ProtobufError

pub record ProtobufEnvelope : Type 0 where
  pub message_type : ℕ
  pub contents : Bytes

-- `ProtobufEnvelope::decode`
unfoldable pub decode_envelope : Frame → Result ProtobufError ProtobufEnvelope
decode_envelope f = do
  reject_if (not (f.packet_id == protobuf_packet_id)) (unexpected_packet_id f.packet_id)
  let p = f.payload
  reject_if (ltb (length p) envelope_header_length)
      (payload_too_short (length p) envelope_header_length)
  let declared_length = from_le_bytes (at p 1 ∷ at p 2 ∷ at p 3 ∷ at p 4 ∷ [])
  let actual_length = length p - envelope_header_length
  reject_if (not (declared_length == actual_length))
      (data_length_mismatch declared_length actual_length)
  ok (record { message_type = at p 0; contents = drop envelope_header_length p })

abbrev pub should_echo_in_lobby : ProtobufEnvelope → Bool
should_echo_in_lobby e =
    e.message_type == player_profile_message_type
    || (e.message_type == player_skins_message_type
        || e.message_type == player_unknown_5_message_type)

unfoldable pub encode_envelope : ℕ → Bytes → Result ProtobufError Frame
encode_envelope message_type contents = do
  reject_if (ltb u32_max (length contents)) data_too_large
  map_err frame
      (Frame.new protobuf_packet_id (message_type ∷ (to_le_bytes 4 (length contents) ++ contents)))

-- `profile` encodes the message about a player with a battle tag.
unfoldable pub player_profile_frame : (ℕ → Bytes → Bytes) → ℕ → Bytes → Result ProtobufError Frame
unfolding encode_envelope
player_profile_frame profile player_id battle_tag = do
  reject_if (player_id == 0) invalid_player_id
  reject_if (is_empty battle_tag || ltb max_battle_tag_bytes (length battle_tag))
      (invalid_battle_tag_length (length battle_tag) max_battle_tag_bytes)
  encode_envelope player_profile_message_type (profile player_id battle_tag)

unfoldable pub player_skins_frame : (ℕ → Bytes) → ℕ → Result ProtobufError Frame
unfolding encode_envelope
player_skins_frame skins player_id = do
  reject_if (player_id == 0) invalid_player_id
  encode_envelope player_skins_message_type (skins player_id)
