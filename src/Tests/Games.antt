-- ===== src/Tests/Games.antt =====
-- Tunnel messages and timeslots. The sum of the bytes stands for the checksum of crc32fast.
use strajer.Common.{ℕ, ◌+◌, ◌≤◌, ◌≡◌, ◌≢◌, ◌↔◌, refl, List, [], ◌∷◌, arith, ok, err, length, All}
use strajer.Common.Bytes.{Bytes}
use strajer.Frame.{Frame}
use strajer.Frame.Shape.{framed}
use strajer.Protocol.Messages.{AgentLobbyMessage, validate_message}
use strajer.Protocol.Messages.Valid.{Constructed, validate_message_iff}
use strajer.Tunnel.{invalid_kind}
use strajer.Tunnel.Agent
use strajer.Tunnel.Agent.{AgentGameMessage}
use strajer.Tunnel.Server
use strajer.Tunnel.Server.{ServerGameMessage}
use strajer.Tunnel.RoundTrip.{IsMessage, decode-encode, decode_sound}
use strajer.Game.{
  PlayerAction, OutgoingAction, decode_action, max_action_data_bytes, outgoing_action_packet_id,
  stuck,
}
use strajer.Game.Groups.{IsAction, concat}
use strajer.Game.Incoming.{
  action_records, decode_player_actions, group_actions, no_groups, incoming_action_frames,
}
use strajer.Game.Timeslots.{IsTimeslot, incoming_action_frames_lem}
use strajer.Game.Decoding.{decode_player_actions-ne-stuck, decode_player_actions_sound}

abbrev agent_message : AgentGameMessage
agent_message = record { sequence = 7; frame = 0xF7 ∷ 0x26 ∷ 4 ∷ 0 ∷ [] }

abbrev server_message : ServerGameMessage
server_message = record { sequence = 7; frame = 0xF7 ∷ 0x26 ∷ 4 ∷ 0 ∷ [] }

abbrev some_frame : Bytes
some_frame = 0xF7 ∷ 0x26 ∷ 4 ∷ 0 ∷ []

agent_built : Agent.w3gs_frame 7 some_frame ≡ ok agent_message
unfolding Agent.w3gs_frame
agent_built = refl

server_built : Server.w3gs_frame 7 some_frame ≡ ok server_message
unfolding Server.w3gs_frame
server_built = refl

decode-encode_example :
    (Agent.decode (Agent.encode agent_message) ≡ ok agent_message)
    × (Server.decode (Server.encode server_message) ≡ ok server_message)
decode-encode_example =
    decode-encode 7 some_frame agent_message server_message (omega arith) agent_built server_built

abbrev agent_bytes : Bytes
agent_bytes =
    83 ∷ 84 ∷ 82 ∷ 74 ∷ 1 ∷ 0 ∷ 5 ∷ 0 ∷ 7 ∷ 0 ∷ 0 ∷ 0 ∷ 0 ∷ 0 ∷ 0 ∷ 0 ∷ 0xF7 ∷ 0x26 ∷ 4 ∷ 0 ∷ []

agent_bytes_test : Agent.decode agent_bytes ≡ ok agent_message
unfolding Agent.decode strajer.Tunnel.decode_message Agent.w3gs_frame
agent_bytes_test = refl

decode_sound_example : IsMessage 7 some_frame × (Agent.encode agent_message ≡ agent_bytes)
decode_sound_example = decode_sound agent_bytes agent_message (omega arith) agent_bytes_test

abbrev pub sum : Bytes → ℕ
sum [] = 0
sum (b ∷ bs) = b + sum bs

abbrev pub first_action : PlayerAction
first_action = record { player_id = 1; bytes = 10 ∷ 20 ∷ [] }

abbrev pub second_action : PlayerAction
second_action = record { player_id = 2; bytes = 30 ∷ [] }

pub first_action-IsAction : IsAction first_action
first_action-IsAction = record {
  id_pos = omega arith;
  id_byte = omega arith;
  short = omega arith;
  bytes = omega arith;
}

pub second_action-IsAction : IsAction second_action
second_action-IsAction = record {
  id_pos = omega arith;
  id_byte = omega arith;
  short = omega arith;
  bytes = omega arith;
}

incoming_action_frames_lem_example :
    (fs : List Frame) × (gs : List (List PlayerAction)) × (incoming_action_frames sum 100
        (first_action ∷ second_action ∷ [])
      ≡ ok fs)
    × IsTimeslot sum 100 gs fs
    × (concat gs ≡ first_action ∷ second_action ∷ [])
    × (length fs ≤ 3)
incoming_action_frames_lem_example =
    incoming_action_frames_lem sum 100 (first_action ∷ second_action ∷ []) (omega arith)
      (first_action-IsAction, (second_action-IsAction, tt))

decode_player_actions-ne-stuck_example : decode_player_actions (1 ∷ 2 ∷ 0 ∷ []) ≢ err stuck
decode_player_actions-ne-stuck_example = decode_player_actions-ne-stuck (1 ∷ 2 ∷ 0 ∷ [])

abbrev records : Bytes
records = 1 ∷ 2 ∷ 0 ∷ 10 ∷ 20 ∷ 2 ∷ 1 ∷ 0 ∷ 30 ∷ []

records_test : decode_player_actions records ≡ ok (first_action ∷ second_action ∷ [])
unfolding decode_player_actions strajer.Game.Incoming.decode_actions_loop strajer.Game.new_action
records_test = refl

decode_player_actions_sound_example :
    (action_records (first_action ∷ second_action ∷ []) ≡ records)
    × All IsAction (first_action ∷ second_action ∷ [])
decode_player_actions_sound_example =
    decode_player_actions_sound records (first_action ∷ second_action ∷ []) (omega arith)
      records_test

abbrev action_frame : Frame
action_frame = framed outgoing_action_packet_id (30 ∷ 0 ∷ 0 ∷ 0 ∷ 10 ∷ 20 ∷ [])

abbrev sent_action : OutgoingAction
sent_action = record { bytes = 10 ∷ 20 ∷ [] }

action_frame_test : decode_action sum action_frame ≡ ok sent_action
unfolding decode_action
action_frame_test = refl

validate_message_iff_example :
    (validate_message (AgentLobbyMessage.join 5 (b'a' ∷ [])) ≡ ok tt)
    ↔ Constructed (AgentLobbyMessage.join 5 (b'a' ∷ []))
validate_message_iff_example = validate_message_iff (AgentLobbyMessage.join 5 (b'a' ∷ []))
