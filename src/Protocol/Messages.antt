-- ===== src/Protocol/Messages.antt =====
-- The control messages of crates/strajer-protocol/src/lib.rs and the leave codes of the W3GS protocol.
pub mod Valid
use strajer.Common.{
  ℕ, not, if◌then◌else◌, List, [], ◌∷◌, Option, none, some, ◌==◌, Result, ok, err, ◌>>=◌, ◌>>◌,
  reject_if,
}
use strajer.Common.Texts.{Text}
use strajer.Tunnel.{lobby_session_protocol_version}
use strajer.Protocol.{
  LobbyLeaveReason, disconnect, lost, lost_buildings, won, draw, observer, lobby, GameEndReason,
  LobbyRoster, LobbySessionValidationError, unsupported_protocol_version, invalid_leave_reason,
  validate_lobby_player_name, validate_lobby_chat_message,
}

pub data AgentLobbyMessage : Type 0 where
  join : (protocol_version : ℕ) (player_name : Text) → AgentLobbyMessage
  ready loaded : (protocol_version : ℕ) → AgentLobbyMessage
  chat : (protocol_version : ℕ) (message : Text) → AgentLobbyMessage
  leave : (protocol_version : ℕ) (reason : LobbyLeaveReason) → AgentLobbyMessage

pub data LobbyJoinRejection : Type 0 where
  invalid_request unsupported_protocol invalid_player_name : LobbyJoinRejection
  lobby_full lobby_started duplicate_player_name : LobbyJoinRejection

pub data ServerLobbyMessage : Type 0 where
  joined : (protocol_version player_id : ℕ) (roster : LobbyRoster) → ServerLobbyMessage
  roster : LobbyRoster → ServerLobbyMessage
  countdown : (remaining_seconds : ℕ) → ServerLobbyMessage
  countdown_cancelled : ServerLobbyMessage
  chat : (from_player_id : ℕ) (message : Text) → ServerLobbyMessage
  notice : (message : Text) → ServerLobbyMessage
  start : ServerLobbyMessage
  player_loaded : (player_id : ℕ) → ServerLobbyMessage
  player_left :
      (player_id : ℕ) (reason : LobbyLeaveReason) (left : LobbyRoster) → ServerLobbyMessage
  game_ended : (reason : GameEndReason) → ServerLobbyMessage
  rejected : (code : LobbyJoinRejection) → ServerLobbyMessage

-- `AgentLobbyMessage::join` and the other constructors.
unfoldable pub new_join : Text → Result LobbySessionValidationError AgentLobbyMessage
new_join player_name = do
  validate_lobby_player_name player_name
  ok (AgentLobbyMessage.join lobby_session_protocol_version player_name)

unfoldable pub new_ready : AgentLobbyMessage
new_ready = AgentLobbyMessage.ready lobby_session_protocol_version

unfoldable pub new_loaded : AgentLobbyMessage
new_loaded = AgentLobbyMessage.loaded lobby_session_protocol_version

unfoldable pub new_chat : Text → Result LobbySessionValidationError AgentLobbyMessage
new_chat message = do
  validate_lobby_chat_message message
  ok (AgentLobbyMessage.chat lobby_session_protocol_version message)

unfoldable pub new_leave : LobbyLeaveReason → AgentLobbyMessage
new_leave reason = AgentLobbyMessage.leave lobby_session_protocol_version reason

unfoldable pub validate_lobby_session_protocol_version :
    ℕ → Result LobbySessionValidationError (Unit {0})
validate_lobby_session_protocol_version protocol_version =
    reject_if (not (protocol_version == lobby_session_protocol_version))
      (unsupported_protocol_version protocol_version lobby_session_protocol_version)

-- `AgentLobbyMessage::validate`
unfoldable pub validate_message : AgentLobbyMessage → Result LobbySessionValidationError (Unit {0})
validate_message (AgentLobbyMessage.join protocol_version player_name) = do
  validate_lobby_session_protocol_version protocol_version
  validate_lobby_player_name player_name
validate_message (AgentLobbyMessage.ready protocol_version) =
    validate_lobby_session_protocol_version protocol_version
validate_message (AgentLobbyMessage.loaded protocol_version) =
    validate_lobby_session_protocol_version protocol_version
validate_message (AgentLobbyMessage.leave protocol_version reason) =
    validate_lobby_session_protocol_version protocol_version
validate_message (AgentLobbyMessage.chat protocol_version message) = do
  validate_lobby_session_protocol_version protocol_version
  validate_lobby_chat_message message

unfoldable pub join_player_name : AgentLobbyMessage → Option Text
join_player_name (AgentLobbyMessage.join protocol_version player_name) = some player_name
join_player_name (AgentLobbyMessage.ready protocol_version) = none
join_player_name (AgentLobbyMessage.loaded protocol_version) = none
join_player_name (AgentLobbyMessage.chat protocol_version message) = none
join_player_name (AgentLobbyMessage.leave protocol_version reason) = none

unfoldable pub from_w3gs_code : ℕ → Result LobbySessionValidationError LobbyLeaveReason
from_w3gs_code code =
    if code == 0x01
    then ok disconnect
    else if code == 0x07
    then ok lost
    else if code == 0x08
    then ok lost_buildings
    else if code == 0x09
    then ok won
    else if code == 0x0A
    then ok draw
    else if code == 0x0B
    then ok observer
    else if code == 0x0D
    then ok lobby
    else err (invalid_leave_reason code)

unfoldable pub w3gs_code : LobbyLeaveReason → ℕ
w3gs_code disconnect = 0x01
w3gs_code lost = 0x07
w3gs_code lost_buildings = 0x08
w3gs_code won = 0x09
w3gs_code draw = 0x0A
w3gs_code observer = 0x0B
w3gs_code lobby = 0x0D
