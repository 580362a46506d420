-- ===== src/Game/Incoming.antt =====
-- Timeslots of crates/strajer-w3gs/src/game.rs: `incoming_action_frames` and
-- `IncomingActionFrame::decode`.
use strajer.Common.{
  ℕ, zero, suc, ◌+◌, ◌%◌, ◌^◌, Bool, true, false, not, ◌&&◌, List, [], ◌∷◌, ◌++◌, ltb, ◌==◌,
  if◌then◌else◌, Result, ok, err, ◌>>=◌, ◌>>◌, reject_if, map_err, length, take, drop, is_empty,
}
use strajer.Common.Bytes.{Bytes, to_le_bytes, from_le_bytes, at}
use strajer.Frame.{Frame}
use strajer.Frame
use strajer.Game.{
  W3gsGameFrameError, PlayerAction, encoded_length, new_action, validate_player_id,
  validate_action_data, unexpected_packet_id, action_record_too_large, malformed_incoming_action,
  incoming_action_frame_too_large, fragment_advances_time, empty_action_fragment,
  invalid_incoming_action_checksum, frame, stuck, incoming_action_packet_id,
  incoming_action_2_packet_id, max_action_subpacket_bytes, max_incoming_action_frame_bytes,
}

-- The groups closed so far, the slice `actions[group_start..index]`, and `group_bytes`.
pub record Grouping : Type 0 where
  pub groups : List (List PlayerAction)
  pub current : List PlayerAction
  pub group_bytes : ℕ

-- One round of the grouping loop, after the checks.
unfoldable pub place : Grouping → PlayerAction → Grouping
place g a =
    if ltb 0 g.group_bytes && ltb max_action_subpacket_bytes (g.group_bytes + encoded_length a)
    then record {
      groups = g.groups ++ (g.current ∷ []);
      current = a ∷ [];
      group_bytes = encoded_length a;
    }
    else record g {
      current = g.current ++ (a ∷ []);
      group_bytes = g.group_bytes + encoded_length a;
    }

unfoldable pub group_actions :
    Grouping → List PlayerAction → Result W3gsGameFrameError (List (List PlayerAction))
group_actions g [] = ok (g.groups ++ (g.current ∷ []))
group_actions g (a ∷ rest) = do
  validate_player_id a.player_id
  validate_action_data a.bytes
  reject_if (ltb max_action_subpacket_bytes (encoded_length a))
      (action_record_too_large (encoded_length a) max_action_subpacket_bytes)
  group_actions (place g a) rest

abbrev pub no_groups : Grouping
no_groups = record { groups = []; current = []; group_bytes = 0 }

-- The concatenated records of a group. `as u16` keeps the low sixteen bits.
unfoldable pub action_records : List PlayerAction → Bytes
action_records [] = []
action_records (a ∷ rest) =
    a.player_id ∷ (to_le_bytes 2 (length a.bytes % 2 ^ 16) ++ (a.bytes ++ action_records rest))

pub record IncomingActionFrame : Type 0 where
  pub fragment : Bool
  pub time_increment_ms : ℕ
  pub actions : List PlayerAction

-- The loop of `decode_player_actions`: `rest` is `bytes[offset..]`, and the fuel bounds the rounds.
-- `offset` stays at most `bytes.len()` before `checked_add`, and an action has at most 65,535 bytes,
-- so that addition does not overflow.
unfoldable pub decode_actions_loop :
    ℕ → Bytes → List PlayerAction → Result W3gsGameFrameError (List PlayerAction)
decode_actions_loop fuel [] actions = ok actions
decode_actions_loop zero (b ∷ bs) actions = err stuck
decode_actions_loop (suc fuel) (b ∷ bs) actions = do
  let rest = b ∷ bs
  reject_if (ltb (length rest) 3) malformed_incoming_action
  let action_length = from_le_bytes (at rest 1 ∷ at rest 2 ∷ [])
  let after = drop 3 rest
  reject_if (ltb (length after) action_length) malformed_incoming_action
  action ← new_action (at rest 0) (take action_length after)
  decode_actions_loop fuel (drop action_length after) (actions ++ (action ∷ []))

unfoldable pub decode_player_actions : Bytes → Result W3gsGameFrameError (List PlayerAction)
decode_player_actions bytes = decode_actions_loop (length bytes) bytes []

module _ (hash : Bytes → ℕ) where
  unfoldable pub encode_action_group : ℕ → ℕ → List PlayerAction → Result W3gsGameFrameError Frame
  encode_action_group packet_id time_increment_ms actions =
      let action_bytes = action_records actions in
      let crc = hash action_bytes % 2 ^ 16 in
      map_err frame (
        Frame.new packet_id
          (to_le_bytes 2 time_increment_ms ++ (to_le_bytes 2 crc ++ action_bytes)))

  -- The groups in order: the last one carries the time, and the others are fragments.
  unfoldable pub encode_groups :
      ℕ → List (List PlayerAction) → Result W3gsGameFrameError (List Frame)
  encode_groups time_increment_ms [] = ok []
  encode_groups time_increment_ms (group ∷ []) = do
    f ← encode_action_group incoming_action_packet_id time_increment_ms group
    ok (f ∷ [])
  encode_groups time_increment_ms (group ∷ next ∷ groups) = do
    f ← encode_action_group incoming_action_2_packet_id 0 group
    fs ← encode_groups time_increment_ms (next ∷ groups)
    ok (f ∷ fs)

  unfoldable pub incoming_action_frames :
      ℕ → List PlayerAction → Result W3gsGameFrameError (List Frame)
  incoming_action_frames time_increment_ms [] = do
    f ← map_err frame (Frame.new incoming_action_packet_id (to_le_bytes 2 time_increment_ms))
    ok (f ∷ [])
  incoming_action_frames time_increment_ms (a ∷ rest) = do
    groups ← group_actions no_groups (a ∷ rest)
    encode_groups time_increment_ms groups

  unfoldable pub packet_fragment : ℕ → Result W3gsGameFrameError Bool
  packet_fragment packet_id =
      if packet_id == incoming_action_packet_id
      then ok false
      else if packet_id == incoming_action_2_packet_id
      then ok true
      else err (unexpected_packet_id packet_id)

  -- What follows the time, with its checksum.
  unfoldable pub decode_checked_actions :
      Bool → ℕ → Bytes → Result W3gsGameFrameError IncomingActionFrame
  decode_checked_actions fragment time_increment_ms payload = do
    reject_if (ltb (length payload) 4) malformed_incoming_action
    let expected_crc = from_le_bytes (at payload 2 ∷ at payload 3 ∷ [])
    let action_bytes = drop 4 payload
    let actual_crc = hash action_bytes % 2 ^ 16
    reject_if (not (expected_crc == actual_crc))
        (invalid_incoming_action_checksum expected_crc actual_crc)
    actions ← decode_player_actions action_bytes
    reject_if (is_empty actions) malformed_incoming_action
    ok (record { fragment = fragment; time_increment_ms = time_increment_ms; actions = actions })

  -- `IncomingActionFrame::decode`
  unfoldable pub decode : Frame → Result W3gsGameFrameError IncomingActionFrame
  decode f = do
    fragment ← packet_fragment f.packet_id
    reject_if (ltb max_incoming_action_frame_bytes f.frame_length)
        (incoming_action_frame_too_large f.frame_length max_incoming_action_frame_bytes)
    reject_if (ltb (length f.payload) 2) malformed_incoming_action
    let time_increment_ms = from_le_bytes (at f.payload 0 ∷ at f.payload 1 ∷ [])
    reject_if (fragment && not (time_increment_ms == 0)) (fragment_advances_time time_increment_ms)
    if length f.payload == 2
        then (if fragment
            then err empty_action_fragment
            else ok (record {
              fragment = fragment;
              time_increment_ms = time_increment_ms;
              actions = [];
            }))
        else decode_checked_actions fragment time_increment_ms f.payload
