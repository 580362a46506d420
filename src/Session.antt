-- ===== src/Session.antt =====
-- apps/strajer-server/src/http.rs: the WebSocket session of one player. The children hold what a
-- message of the player does to the room, what the player is sent, and the session from its join
-- to its cleanup. The transport is axum's and tokio's: a session sees what they deliver. The JSON
-- codec is serde's, and is a parameter of what uses it.
pub mod Handlers
pub mod Loop
pub mod Calls
pub mod Joins
pub mod Serving
use strajer.Common.{
  ℕ, ◌-◌, Bool, false, true, ◌&&◌, ◌||◌, List, [], ◌∷◌, Option, none, some, ltb, leb, ◌==◌,
  if◌then◌else◌, Result, ok, err, ◌>>=◌, ◌>>◌, reject_if, map_err, ok_or,
}
use strajer.Common.Bytes.{Bytes}
use strajer.Common.Texts.{Text, codes, str_len, trim, eq_ignore_ascii_case}
use strajer.Frame.{FrameError}
use strajer.Tunnel.{GameTunnelError}
use strajer.Tunnel.Server
use strajer.Game.{W3gsGameFrameError}
use strajer.Protocol.{
  LobbySessionValidationError, unsupported_protocol_version, invalid_player_name,
  invalid_roster_revision, invalid_roster_player_count, invalid_roster_player_id,
  invalid_roster_slot_index, duplicate_roster_player_id, duplicate_roster_slot_index,
  invalid_countdown_seconds, invalid_leave_reason, invalid_chat_message,
  max_lobby_control_message_bytes,
}
use strajer.Protocol.Messages.{
  AgentLobbyMessage, LobbyJoinRejection, ServerLobbyMessage, validate_message,
}
use strajer.Room.{
  LobbyJoinError, full, has_started, countdown_running, duplicate_player_name, session_id_exhausted,
  LobbyMembershipError, ManualStartOutcome, has_begun, already_counting_down, already_started,
  not_enough_players, players_not_ready,
}

-- In nanoseconds, as every `Instant` here.
abbrev pub lobby_client_idle_timeout : ℕ
lobby_client_idle_timeout = 45_000_000_000

-- The errors that end a session: one for each `bail!`, and the error under each `context`.
pub data SessionError : Type 0 where
  message_too_large invalid_json duplicate_join : SessionError
  invalid_message : LobbySessionValidationError → SessionError
  refused : LobbyMembershipError → SessionError
  game_message_too_large : SessionError
  tunnel : GameTunnelError → SessionError
  frame : FrameError → SessionError
  game : W3gsGameFrameError → SessionError
  unsupported_packet : (packet_id : ℕ) → SessionError
  idle_timed_out unreadable encoding encoded_too_large unrecoverable_lag : SessionError

-- The messages of the crate axum.
pub data Message : Type 0 where
  text : Text → Message
  binary ping pong : Bytes → Message
  close : Message

unfoldable pub map_validation_error : LobbySessionValidationError → LobbyJoinRejection
map_validation_error (unsupported_protocol_version actual expected) =
    LobbyJoinRejection.unsupported_protocol
map_validation_error invalid_player_name = LobbyJoinRejection.invalid_player_name
map_validation_error invalid_roster_revision = LobbyJoinRejection.invalid_request
map_validation_error (invalid_roster_player_count actual maximum) =
    LobbyJoinRejection.invalid_request
map_validation_error (invalid_roster_player_id n) = LobbyJoinRejection.invalid_request
map_validation_error (invalid_roster_slot_index n) = LobbyJoinRejection.invalid_request
map_validation_error (duplicate_roster_player_id n) = LobbyJoinRejection.invalid_request
map_validation_error (duplicate_roster_slot_index n) = LobbyJoinRejection.invalid_request
map_validation_error (invalid_countdown_seconds n) = LobbyJoinRejection.invalid_request
map_validation_error (invalid_leave_reason n) = LobbyJoinRejection.invalid_request
map_validation_error invalid_chat_message = LobbyJoinRejection.invalid_request

unfoldable pub map_join_error : LobbyJoinError → LobbyJoinRejection
map_join_error full = LobbyJoinRejection.lobby_full
map_join_error has_started = LobbyJoinRejection.lobby_started
map_join_error countdown_running = LobbyJoinRejection.lobby_started
map_join_error duplicate_player_name = LobbyJoinRejection.duplicate_player_name
map_join_error session_id_exhausted = LobbyJoinRejection.invalid_request

unfoldable pub is_manual_start_command : Text → Bool
is_manual_start_command message = eq_ignore_ascii_case (trim message) (codes "!start")

unfoldable pub manual_start_notice : ManualStartOutcome → Option ServerLobbyMessage
manual_start_notice has_begun = none
manual_start_notice already_counting_down =
    some (ServerLobbyMessage.notice (codes "Countdown is already running."))
manual_start_notice already_started =
    some (ServerLobbyMessage.notice (codes "The game has already started."))
manual_start_notice not_enough_players =
    some
      (ServerLobbyMessage.notice (codes "At least two players must be in the lobby before !start."))
manual_start_notice players_not_ready = some (
    ServerLobbyMessage.notice
      (codes "Manual start armed; waiting for every connected player to finish map verification."))

-- `saturating_duration_since` is 0 for an instant that lies ahead, as the subtraction here.
unfoldable pub lobby_client_idle_timed_out : ℕ → ℕ → ℕ → Bool
lobby_client_idle_timed_out last_client_activity now idle_timeout =
    leb idle_timeout (now - last_client_activity)

module _ (parse : Text → Option AgentLobbyMessage) where
  abbrev receive_text : Text → Result LobbyJoinRejection AgentLobbyMessage
  receive_text t = do
    reject_if (ltb max_lobby_control_message_bytes (str_len t)) LobbyJoinRejection.invalid_request
    message ← ok_or (parse t) LobbyJoinRejection.invalid_request
    map_err map_validation_error (validate_message message)
    ok message

  -- `none` stands for no message: a timeout, an end or a failure of the socket.
  unfoldable pub receive_join_message : Option Message → Result LobbyJoinRejection AgentLobbyMessage
  receive_join_message none = err LobbyJoinRejection.invalid_request
  receive_join_message (some (text t)) = receive_text t
  receive_join_message (some (binary b)) = err LobbyJoinRejection.invalid_request
  receive_join_message (some (ping b)) = err LobbyJoinRejection.invalid_request
  receive_join_message (some (pong b)) = err LobbyJoinRejection.invalid_request
  receive_join_message (some close) = err LobbyJoinRejection.invalid_request

module _ (print : ServerLobbyMessage → Option Text) where
  -- What `send_server_message` sends.
  unfoldable pub encode_server_message : ServerLobbyMessage → Result SessionError Message
  encode_server_message message = do
    t ← ok_or (print message) encoding
    reject_if (ltb max_lobby_control_message_bytes (str_len t)) encoded_too_large
    ok (text t)

-- What `send_server_game_message` sends.
unfoldable pub encode_server_game_message : ℕ → Bytes → Result SessionError Message
encode_server_game_message sequence f = do
  message ← map_err tunnel (Server.w3gs_frame sequence f)
  ok (binary (Server.encode message))
