-- ===== src/Remote.antt =====
-- apps/strajer-agent/src/remote_lobby.rs: the agent's end of a lobby session. The transport is
-- tokio-tungstenite's, the JSON codec serde's and the address the crate url's: a session sees what
-- they deliver, and a send is told by the argument `sends` whether the socket takes it.
pub mod Incoming
pub mod Sessions
use strajer.Common.{ℕ, ◌-◌, Bool, List, Option, leb}
use strajer.Common.Bytes.{Bytes}
use strajer.Common.Texts.{Text}
use strajer.Frame.{Frame, FrameError}
use strajer.Tunnel.{GameTunnelError}
use strajer.Game.{W3gsGameFrameError}
use strajer.Protocol.{LobbyLeaveReason, GameEndReason, LobbyRoster, LobbySessionValidationError}
use strajer.Protocol.Messages.{ServerLobbyMessage, LobbyJoinRejection}

-- In nanoseconds.
abbrev pub remote_server_idle_timeout : ℕ
remote_server_idle_timeout = 35_000_000_000

-- One for each `bail!`, and the error under each `context`.
pub data RemoteError : Type 0 where
  message_too_large invalid_json encoding encoded_too_large not_sent unreadable raw_frame :
      RemoteError
  game_message_too_large : RemoteError
  tunnel : GameTunnelError → RemoteError
  frame : FrameError → RemoteError
  timeslot : W3gsGameFrameError → RemoteError
  invalid : LobbySessionValidationError → RemoteError
  closed_early game_before_join control_before_join : RemoteError
  protocol_mismatch : (protocol_version : ℕ) → RemoteError
  join_rejected session_rejected : LobbyJoinRejection → RemoteError
  not_in_roster wrong_name : RemoteError
  invalid_chat_sender invalid_loaded_player invalid_departed_player inconsistent_roster :
      RemoteError
  duplicate_joined sequence_exhausted : RemoteError
  sequence_mismatch : (expected actual : ℕ) → RemoteError
  idle_timed_out : RemoteError

-- The messages of the crate tungstenite.
pub data Message : Type 0 where
  text : Text → Message
  binary ping pong raw : Bytes → Message
  close : Message

pub record RemoteLobbySession : Type 0 where
  pub assigned_player_id : ℕ
  pub initial_roster : LobbyRoster
  pub maximum_players : ℕ
  pub last_server_activity : ℕ
  pub ready_sent : Bool
  pub loaded_sent : Bool
  pub last_sent_game_sequence : ℕ
  pub last_received_game_sequence : ℕ
  -- What the socket took.
  pub sent : List Message

pub data RemoteLobbyEvent : Type 0 where
  roster : LobbyRoster → RemoteLobbyEvent
  countdown : (remaining_seconds : ℕ) → RemoteLobbyEvent
  countdown_cancelled : RemoteLobbyEvent
  chat : (from_player_id : ℕ) (message : Text) → RemoteLobbyEvent
  notice : (message : Text) → RemoteLobbyEvent
  start : RemoteLobbyEvent
  player_loaded : (player_id : ℕ) → RemoteLobbyEvent
  player_left : (player_id : ℕ) (reason : LobbyLeaveReason) (left : LobbyRoster) → RemoteLobbyEvent
  game_frame : Frame → RemoteLobbyEvent
  game_ended : (reason : GameEndReason) → RemoteLobbyEvent

pub data RemoteServerMessage : Type 0 where
  control : ServerLobbyMessage → RemoteServerMessage
  game : (sequence : ℕ) (f : Frame) → RemoteServerMessage

-- `saturating_duration_since` is 0 for an instant that lies ahead, as the subtraction here.
unfoldable pub remote_server_idle_timed_out : ℕ → ℕ → ℕ → Bool
remote_server_idle_timed_out last_server_activity now idle_timeout =
    leb idle_timeout (now - last_server_activity)
