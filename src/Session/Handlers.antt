-- ===== src/Session/Handlers.antt =====
-- What one message of a connected player does: `handle_active_agent_message` and
-- `handle_active_agent_game_message` of apps/strajer-server/src/http.rs.
use strajer.Common.{ℕ, Option, none, ltb, ◌==◌, err, map_err, ok_or, length}
use strajer.Common.Bytes.{Bytes}
use strajer.Common.Texts.{Text, str_len}
use strajer.Frame.{Frame, decode_exact}
use strajer.Tunnel.{max_game_tunnel_message_bytes, max_tunneled_w3gs_frame_bytes}
use strajer.Tunnel.Agent
use strajer.Game.{
  outgoing_action_packet_id, outgoing_keepalive_packet_id, decode_action, decode_keepalive,
  new_action,
}
use strajer.Protocol.{max_lobby_control_message_bytes}
use strajer.Protocol.Messages.{AgentLobbyMessage, ServerLobbyMessage, validate_message}
use strajer.Room.Actions.{Action, pure, from, ◌>>=◌, ◌>>◌, reject_when, test◌then◌else◌}
use strajer.Room.Lobby.{mark_ready, publish_chat, request_manual_start}
use strajer.Room.Play.{mark_loaded, submit_action, submit_keepalive, leave}
use strajer.Session.{
  SessionError, message_too_large, invalid_json, duplicate_join, invalid_message, refused,
  game_message_too_large, tunnel, frame, game, unsupported_packet, max_lobby_control_message_bytes,
  is_manual_start_command, manual_start_notice,
}

-- `handler.await.context(..)`
module _ {E A : Type 0} (f : E → SessionError) where
  unfoldable pub context : Action E A → Action SessionError A
  context m r = (map_err f (m r).0, (m r).1)

module _ (hash : Bytes → ℕ) (player_id session_id : ℕ) where
  module _ (now : ℕ) where
    -- The `match` on the message.
    unfoldable pub handle_message :
        AgentLobbyMessage → Action SessionError (Option ServerLobbyMessage)
    handle_message (AgentLobbyMessage.ready version) = do
      context refused (mark_ready player_id session_id)
      pure none
    handle_message (AgentLobbyMessage.loaded version) = do
      context refused (mark_loaded player_id session_id)
      pure none
    handle_message (AgentLobbyMessage.chat version message) =
        test is_manual_start_command message
        then (do
          outcome ← context refused (request_manual_start player_id session_id)
          pure (manual_start_notice outcome))
        else do
          published ← context refused (publish_chat player_id session_id message now)
          pure none
    handle_message (AgentLobbyMessage.leave version reason) = do
      context refused (leave hash player_id session_id reason)
      pure none
    handle_message (AgentLobbyMessage.join version player_name) = from (err duplicate_join)

    module _ (parse : Text → Option AgentLobbyMessage) where
      unfoldable pub handle_active_agent_message :
          Text → Action SessionError (Option ServerLobbyMessage)
      unfolding handle_message
      handle_active_agent_message t = do
        reject_when (ltb max_lobby_control_message_bytes (str_len t)) message_too_large
        message ← from (ok_or (parse t) invalid_json)
        from (map_err invalid_message (validate_message message))
        handle_message message

  -- The `match` on the packet id.
  unfoldable pub handle_game_frame : ℕ → Frame → Action SessionError (Unit {0})
  handle_game_frame sequence f =
      test f.packet_id == outgoing_action_packet_id
      then (do
        outgoing ← from (map_err game (decode_action hash f))
        action ← from (map_err game (new_action player_id outgoing.bytes))
        context refused (submit_action player_id session_id sequence action))
      else test f.packet_id == outgoing_keepalive_packet_id
      then (do
        keepalive ← from (map_err game (decode_keepalive f))
        context refused (submit_keepalive player_id session_id sequence keepalive.checksum))
      else from (err (unsupported_packet f.packet_id))

  unfoldable pub handle_active_agent_game_message : Bytes → Action SessionError (Unit {0})
  unfolding handle_game_frame
  handle_active_agent_game_message payload = do
    reject_when (ltb max_game_tunnel_message_bytes (length payload)) game_message_too_large
    message ← from (map_err tunnel (Agent.decode payload))
    f ← from (map_err frame (decode_exact message.frame max_tunneled_w3gs_frame_bytes))
    handle_game_frame message.sequence f
