-- ===== src/Game.antt =====
-- crates/strajer-w3gs/src/game.rs: the packets of a running game. Players send actions and keepalives;
-- the host collects actions and broadcasts them in timeslots, each a sequence of frames of at most
-- 1,460 bytes of which only the last advances the game time.
-- The function `hash` of the crate crc32fast is a parameter of what uses it.
pub mod Incoming
pub mod Groups
pub mod RoundTrip
pub mod Timeslots
pub mod Decoding
use strajer.Common.{
  ℕ, ◌+◌, ◌-◌, Bool, true, false, not, List, [], ◌∷◌, ◌++◌, ltb, leb, ◌==◌, Result, ok, err, ◌>>=◌,
  ◌>>◌, reject_if, length, take, drop,
}
use strajer.Common.Bytes.{Bytes, to_le_bytes, from_le_bytes, at}
use strajer.Frame.{Frame, FrameError}

abbrev pub incoming_action_packet_id : ℕ
incoming_action_packet_id = 0x0C

abbrev pub outgoing_action_packet_id : ℕ
outgoing_action_packet_id = 0x26

abbrev pub outgoing_keepalive_packet_id : ℕ
outgoing_keepalive_packet_id = 0x27

abbrev pub incoming_action_2_packet_id : ℕ
incoming_action_2_packet_id = 0x48

abbrev pub max_action_data_bytes : ℕ
max_action_data_bytes = 1449

abbrev pub max_action_subpacket_bytes : ℕ
max_action_subpacket_bytes = 1452

abbrev pub max_incoming_action_frame_bytes : ℕ
max_incoming_action_frame_bytes = 1460

-- `stuck` is no Rust value: it says that the loop of `decode_player_actions` ran out of fuel.
pub data W3gsGameFrameError : Type 0 where
  unexpected_packet_id : (actual : ℕ) → W3gsGameFrameError
  invalid_outgoing_action_length : (actual : ℕ) → W3gsGameFrameError
  invalid_action_checksum : (expected actual : ℕ) → W3gsGameFrameError
  action_data_too_large : (actual maximum : ℕ) → W3gsGameFrameError
  action_record_too_large : (actual maximum : ℕ) → W3gsGameFrameError
  invalid_keepalive_length : (actual : ℕ) → W3gsGameFrameError
  invalid_player_id : W3gsGameFrameError
  incoming_action_frame_too_large : (actual maximum : ℕ) → W3gsGameFrameError
  malformed_incoming_action : W3gsGameFrameError
  invalid_incoming_action_checksum : (expected actual : ℕ) → W3gsGameFrameError
  fragment_advances_time : ℕ → W3gsGameFrameError
  empty_action_fragment : W3gsGameFrameError
  frame : FrameError → W3gsGameFrameError
  stuck : W3gsGameFrameError

unfoldable pub require_packet_id : Frame → ℕ → Result W3gsGameFrameError (Unit {0})
require_packet_id f expected =
    reject_if (not (f.packet_id == expected)) (unexpected_packet_id f.packet_id)

unfoldable pub validate_player_id : ℕ → Result W3gsGameFrameError (Unit {0})
validate_player_id player_id = reject_if (player_id == 0) invalid_player_id

unfoldable pub validate_action_data : Bytes → Result W3gsGameFrameError (Unit {0})
validate_action_data bytes =
    reject_if (ltb max_action_data_bytes (length bytes))
      (action_data_too_large (length bytes) max_action_data_bytes)

pub record OutgoingAction : Type 0 where
  pub bytes : Bytes

-- `OutgoingAction::decode`
module _ (hash : Bytes → ℕ) where
  unfoldable pub decode_action : Frame → Result W3gsGameFrameError OutgoingAction
  unfolding require_packet_id validate_action_data
  decode_action f = do
    require_packet_id f outgoing_action_packet_id
    reject_if (ltb (length f.payload) 4) (invalid_outgoing_action_length (length f.payload))
    let expected_crc = from_le_bytes (take 4 f.payload)
    let bytes = drop 4 f.payload
    validate_action_data bytes
    reject_if (not (expected_crc == hash bytes)) (invalid_action_checksum expected_crc (hash bytes))
    ok (record { bytes = bytes })

pub record OutgoingKeepAlive : Type 0 where
  pub unknown : ℕ
  pub checksum : ℕ

-- `OutgoingKeepAlive::decode`
unfoldable pub decode_keepalive : Frame → Result W3gsGameFrameError OutgoingKeepAlive
unfolding require_packet_id
decode_keepalive f = do
  require_packet_id f outgoing_keepalive_packet_id
  reject_if (not (length f.payload == 5)) (invalid_keepalive_length (length f.payload))
  ok (record { unknown = at f.payload 0; checksum = from_le_bytes (take 4 (drop 1 f.payload)) })

pub record PlayerAction : Type 0 where
  pub player_id : ℕ
  pub bytes : Bytes

-- `PlayerAction::new`
unfoldable pub new_action : ℕ → Bytes → Result W3gsGameFrameError PlayerAction
unfolding validate_player_id validate_action_data
new_action player_id bytes = do
  validate_player_id player_id
  validate_action_data bytes
  ok (record { player_id = player_id; bytes = bytes })

abbrev pub encoded_length : PlayerAction → ℕ
encoded_length a = 3 + length a.bytes
