-- ===== src/Remote/Incoming.antt =====
-- What the agent accepts from the server: the decoding and the checks of
-- apps/strajer-agent/src/remote_lobby.rs.
use strajer.Common.{
  ℕ, Bool, true, false, not, ◌||◌, List, [], ◌∷◌, Option, none, some, ltb, ◌==◌, Result, ok, err,
  ◌>>=◌, ◌>>◌, reject_if, map_err, ok_or, checked_add, length, list_eq,
}
use strajer.Common.Bytes.{Bytes, u64_max}
use strajer.Common.Texts.{Text, str_len}
use strajer.Frame.{Frame, decode_exact}
use strajer.Tunnel.{
  max_game_tunnel_message_bytes, max_tunneled_w3gs_frame_bytes, lobby_session_protocol_version,
}
use strajer.Tunnel.Server
use strajer.Game.Incoming
use strajer.Protocol.{
  LobbyPlayer, LobbyRoster, validate_lobby_countdown_seconds, validate_lobby_chat_message,
  max_lobby_control_message_bytes,
}
use strajer.Protocol.Roster
use strajer.Protocol.Messages.{ServerLobbyMessage}
use strajer.Remote.{
  RemoteError, message_too_large, not_sent, invalid_json, raw_frame, game_message_too_large, tunnel,
  frame, timeslot, invalid, game_before_join, control_before_join, protocol_mismatch, join_rejected,
  session_rejected, not_in_roster, wrong_name, invalid_chat_sender, invalid_loaded_player,
  invalid_departed_player, inconsistent_roster, duplicate_joined, sequence_exhausted,
  sequence_mismatch, Message, RemoteLobbySession, RemoteLobbyEvent, RemoteServerMessage, control,
  game,
}

unfoldable pub decode_server_game_message : Bytes → Result RemoteError RemoteServerMessage
decode_server_game_message payload = do
  reject_if (ltb max_game_tunnel_message_bytes (length payload)) game_message_too_large
  message ← map_err tunnel (Server.decode payload)
  f ← map_err frame (decode_exact message.frame max_tunneled_w3gs_frame_bytes)
  ok (game message.sequence f)

-- What is sent back at once, and the message that there is, if any.
pub record Handled : Type 0 where
  pub replies : List Message
  pub message : Option RemoteServerMessage

module _ (parse : Text → Option ServerLobbyMessage) where
  -- `sends`: the socket takes a reply.
  unfoldable pub handle_server_websocket_message : Bool → Message → Result RemoteError Handled
  unfolding decode_server_game_message
  handle_server_websocket_message sends (Message.text t) = do
    reject_if (ltb max_lobby_control_message_bytes (str_len t)) message_too_large
    message ← ok_or (parse t) invalid_json
    ok (record { replies = []; message = some (control message) })
  handle_server_websocket_message sends (Message.ping payload) = do
    reject_if (not sends) not_sent
    ok (record { replies = Message.pong payload ∷ []; message = none })
  handle_server_websocket_message sends (Message.pong payload) =
      ok (record { replies = []; message = none })
  handle_server_websocket_message sends Message.close = ok (record { replies = []; message = none })
  handle_server_websocket_message sends (Message.binary payload) = do
    message ← decode_server_game_message payload
    ok (record { replies = []; message = some message })
  handle_server_websocket_message sends (Message.raw payload) = err raw_frame

abbrev is_none : Option LobbyPlayer → Bool
is_none none = true
is_none (some p) = false

abbrev outside : RemoteLobbySession → ℕ → Bool
outside s player_id = player_id == 0 || ltb s.maximum_players player_id

unfoldable pub validate_active_server_message :
    RemoteLobbySession → ServerLobbyMessage → Result RemoteError (Option RemoteLobbyEvent)
validate_active_server_message s (ServerLobbyMessage.roster r) = do
  map_err invalid (Roster.validate s.maximum_players r)
  ok (some (RemoteLobbyEvent.roster r))
validate_active_server_message s (ServerLobbyMessage.countdown remaining_seconds) = do
  map_err invalid (validate_lobby_countdown_seconds remaining_seconds)
  ok (some (RemoteLobbyEvent.countdown remaining_seconds))
validate_active_server_message s ServerLobbyMessage.countdown_cancelled =
    ok (some RemoteLobbyEvent.countdown_cancelled)
validate_active_server_message s (ServerLobbyMessage.chat from_player_id message) = do
  reject_if (outside s from_player_id) invalid_chat_sender
  map_err invalid (validate_lobby_chat_message message)
  ok (some (RemoteLobbyEvent.chat from_player_id message))
validate_active_server_message s (ServerLobbyMessage.notice message) = do
  map_err invalid (validate_lobby_chat_message message)
  ok (some (RemoteLobbyEvent.notice message))
validate_active_server_message s ServerLobbyMessage.start = ok (some RemoteLobbyEvent.start)
validate_active_server_message s (ServerLobbyMessage.player_loaded player_id) = do
  reject_if (outside s player_id) invalid_loaded_player
  ok (some (RemoteLobbyEvent.player_loaded player_id))
validate_active_server_message s (ServerLobbyMessage.player_left player_id reason left) = do
  reject_if (outside s player_id || player_id == s.assigned_player_id) invalid_departed_player
  map_err invalid (Roster.validate s.maximum_players left)
  reject_if
      (not (is_none (Roster.player left player_id))
        || is_none (Roster.player left s.assigned_player_id))
      inconsistent_roster
  ok (some (RemoteLobbyEvent.player_left player_id reason left))
validate_active_server_message s (ServerLobbyMessage.game_ended reason) =
    ok (some (RemoteLobbyEvent.game_ended reason))
validate_active_server_message s (ServerLobbyMessage.rejected code) = err (session_rejected code)
validate_active_server_message s (ServerLobbyMessage.joined protocol_version player_id r) =
    err duplicate_joined

module _ (hash : Bytes → ℕ) where
  -- The event, with the session after it.
  unfoldable pub validate_active_server_game_message :
      RemoteLobbySession
      → ℕ
      → Frame
      → Result RemoteError (Option RemoteLobbyEvent × RemoteLobbySession)
  validate_active_server_game_message s sequence f = do
    expected_sequence ←
        ok_or (checked_add u64_max s.last_received_game_sequence 1) sequence_exhausted
    reject_if (not (sequence == expected_sequence)) (sequence_mismatch expected_sequence sequence)
    decoded ← map_err timeslot (Incoming.decode hash f)
    ok (some (RemoteLobbyEvent.game_frame f), record s { last_received_game_sequence = sequence })

-- The `match` of `connect` on the first message of the server.
abbrev joined_parts : RemoteServerMessage → Result RemoteError (ℕ × ℕ × LobbyRoster)
joined_parts (game sequence f) = err game_before_join
joined_parts (control (ServerLobbyMessage.joined protocol_version player_id r)) =
    ok (protocol_version, player_id, r)
joined_parts (control (ServerLobbyMessage.rejected code)) = err (join_rejected code)
joined_parts (control (ServerLobbyMessage.roster r)) = err control_before_join
joined_parts (control (ServerLobbyMessage.countdown n)) = err control_before_join
joined_parts (control ServerLobbyMessage.countdown_cancelled) = err control_before_join
joined_parts (control (ServerLobbyMessage.chat from_player_id message)) = err control_before_join
joined_parts (control (ServerLobbyMessage.notice message)) = err control_before_join
joined_parts (control ServerLobbyMessage.start) = err control_before_join
joined_parts (control (ServerLobbyMessage.player_loaded player_id)) = err control_before_join
joined_parts (control (ServerLobbyMessage.player_left player_id reason left)) =
    err control_before_join
joined_parts (control (ServerLobbyMessage.game_ended reason)) = err control_before_join

-- What `connect` makes of the first message of the server.
unfoldable pub accept_joined :
    ℕ → Text → ℕ → List Message → RemoteServerMessage → Result RemoteError RemoteLobbySession
accept_joined human_player_capacity player_name now sent message = do
  parts ← joined_parts message
  let (protocol_version, player_id, r) = parts
  reject_if (not (protocol_version == lobby_session_protocol_version))
      (protocol_mismatch protocol_version)
  map_err invalid (Roster.validate human_player_capacity r)
  assigned_player ← ok_or (Roster.player r player_id) not_in_roster
  reject_if (not (list_eq assigned_player.name player_name)) wrong_name
  ok (record {
    assigned_player_id = player_id;
    initial_roster = r;
    maximum_players = human_player_capacity;
    last_server_activity = now;
    ready_sent = false;
    loaded_sent = false;
    last_sent_game_sequence = 0;
    last_received_game_sequence = 0;
    sent = sent;
  })
