-- ===== src/Dispatch.antt =====
-- `handle_lobby_frame` of apps/strajer-agent/src/main.rs: what the agent does with a packet of the game.
-- It tells the server by Remote, moves the download of the map by Transfer and answers the game.
pub mod Honest
pub mod Statuses
pub mod Ready
use strajer.Common.{
  ℕ, Bool, true, false, not, List, [], ◌∷◌, ◌++◌, Option, none, some, ◌==◌, if◌then◌else◌, Result,
  ok, err, map_err, reject_if, ◌>>=◌, ◌>>◌,
}
use strajer.Common.Bytes.{Bytes}
use strajer.Common.Texts.{Text}
use strajer.Frame.{Frame, FrameError}
use strajer.Game.{
  W3gsGameFrameError, OutgoingAction, OutgoingKeepAlive, decode_action, decode_keepalive,
  outgoing_action_packet_id, outgoing_keepalive_packet_id,
}
use strajer.Players.{
  PlayerFrameError, leave_request_reason, validate_game_loaded_self, leave_request_packet_id,
  game_loaded_self_packet_id,
}
use strajer.Protocol.{LobbyLeaveReason, LobbySessionValidationError}
use strajer.Protocol.Messages.{AgentLobbyMessage, from_w3gs_code}
use strajer.Control.{
  LobbyChatToHost, ControlFrameError, unsupported_chat_flag, decode_lobby_chat, leave_ack,
  chat_to_host_packet_id,
}
use strajer.Protobuf.{
  ProtobufEnvelope, ProtobufError, decode_envelope, should_echo_in_lobby, protobuf_packet_id,
}
use strajer.Maps.{map_size_packet_id}
use strajer.Transfer.{TransferError}
use strajer.Transfer.States.{MapTransferState, TransferConfig, Handled, handle_map_size}
use strajer.Remote.{RemoteError, RemoteLobbySession}
use strajer.Remote.Sessions

abbrev pub map_part_not_ok_packet_id : ℕ
map_part_not_ok_packet_id = 0x45

pub data LobbyFrameOutcome : Type 0 where
  continues : LobbyFrameOutcome
  map_ready : LobbyFrameOutcome
  session_ended : LobbyFrameOutcome

pub data AgentError : Type 0 where
  transfer : TransferError → AgentError
  remote : RemoteError → AgentError
  part_rejected : AgentError
  protobuf : ProtobufError → AgentError
  player : PlayerFrameError → AgentError
  unsupported_leave_reason : AgentError
  game : W3gsGameFrameError → AgentError
  chat : ControlFrameError → AgentError
  acknowledgement : FrameError → AgentError
  early_loaded early_action early_keepalive : AgentError
  wrong_chat_sender : AgentError
  not_written : AgentError

-- What a packet may change: the download, the session with the server, and what the game was sent.
pub record LobbyGame : Type 0 where
  pub map_transfer : MapTransferState
  pub remote_session : RemoteLobbySession
  pub written : List Frame

pub record Dispatched : Type 0 where
  pub behind : LobbyGame
  pub outcome : Result AgentError LobbyFrameOutcome

abbrev pub refuse : LobbyGame → AgentError → Dispatched
refuse g e = record { behind = g; outcome = err e }

abbrev pub proceed : LobbyGame → Dispatched
proceed g = record { behind = g; outcome = ok continues }

-- The game behind a send to the server.
abbrev pub after_remote :
    LobbyGame → LobbyFrameOutcome → Result RemoteError (Unit {0}) × RemoteLobbySession → Dispatched
after_remote g outcome (ok done, s) = record {
  behind = record g { remote_session = s };
  outcome = ok outcome;
}
after_remote g outcome (err e, s) = refuse (record g { remote_session = s }) (remote e)

-- `write_frame`
abbrev pub write_frame : Bool → Frame → LobbyFrameOutcome → LobbyGame → Dispatched
write_frame true f outcome g = record {
  behind = record g { written = g.written ++ (f ∷ []) };
  outcome = ok outcome;
}
write_frame false f outcome g = refuse g not_written

-- What follows a call that has not failed.
abbrev pub followed :
    Result AgentError LobbyFrameOutcome → LobbyGame → (LobbyGame → Dispatched) → Dispatched
followed (err e) g k = refuse g e
followed (ok outcome) g k = k g

-- `?` on a result that leaves the game as it is.
abbrev pub attempt : {A : Type 0} → Result AgentError A → LobbyGame → (A → Dispatched) → Dispatched
attempt (err e) g k = refuse g e
attempt (ok a) g k = k a

-- The answer to a game that leaves.
unfoldable pub acknowledge_leave : Bool → LobbyGame → Dispatched
unfolding leave_ack
acknowledge_leave writes g =
    attempt (map_err acknowledgement leave_ack) g λ ack. write_frame writes ack session_ended g

-- The game behind `handle_map_size`.
abbrev pub moved : LobbyGame → Handled → LobbyGame
moved g h = record g { map_transfer = h.state; written = g.written ++ h.written }

module _ (hash : Bytes → ℕ) (print : AgentLobbyMessage → Option Text) (sends writes : Bool)
    (c : TransferConfig) (player_id : ℕ) where
  abbrev pub on_transfer : Result TransferError Bool → LobbyGame → Dispatched
  on_transfer (err e) g = refuse g (transfer e)
  on_transfer (ok false) g = proceed g
  on_transfer (ok true) g =
      after_remote g map_ready (Sessions.mark_ready print sends g.remote_session)

  unfoldable pub on_map_size : ℕ → Frame → LobbyGame → Dispatched
  unfolding handle_map_size Sessions.mark_ready
  on_map_size now f g =
      let h = handle_map_size c player_id writes now f g.map_transfer in
      on_transfer h.result (moved g h)

  unfoldable pub on_protobuf : Frame → LobbyGame → Dispatched
  unfolding decode_envelope
  on_protobuf f g =
      attempt (map_err protobuf (decode_envelope f)) g
        λ e. if should_echo_in_lobby e then write_frame writes f continues g else proceed g

  unfoldable pub on_leave_request : Frame → LobbyGame → Dispatched
  unfolding leave_request_reason from_w3gs_code Sessions.leave acknowledge_leave
  on_leave_request f g = attempt (map_err player (leave_request_reason f)) g λ raw_reason.
      attempt (map_err (λ e. unsupported_leave_reason) (from_w3gs_code raw_reason)) g λ reason.
        let left = after_remote g continues (Sessions.leave print sends reason g.remote_session) in
        followed left.outcome left.behind (acknowledge_leave writes)

  unfoldable pub on_loaded : Bool → Frame → LobbyGame → Dispatched
  unfolding validate_game_loaded_self Sessions.mark_loaded
  on_loaded game_started f g =
      attempt
        (map_err player (validate_game_loaded_self f) >> reject_if (not game_started) early_loaded)
        g λ done. after_remote g continues (Sessions.mark_loaded print sends g.remote_session)

  unfoldable pub on_action : Bool → Frame → LobbyGame → Dispatched
  unfolding decode_action Sessions.send_game_frame
  on_action game_started f g =
      attempt (reject_if (not game_started) early_action >> map_err game (decode_action hash f)) g
        λ action. after_remote g continues (Sessions.send_game_frame print sends f g.remote_session)

  unfoldable pub on_keepalive : Bool → Frame → LobbyGame → Dispatched
  unfolding decode_keepalive Sessions.send_game_frame
  on_keepalive game_started f g =
      attempt (reject_if (not game_started) early_keepalive >> map_err game (decode_keepalive f)) g
        λ keepalive.
          after_remote g continues (Sessions.send_game_frame print sends f g.remote_session)

  unfoldable pub on_chat : Result ControlFrameError LobbyChatToHost → LobbyGame → Dispatched
  unfolding Sessions.send_chat
  on_chat (ok said) g =
      if not (said.from_player_id == player_id)
      then refuse g wrong_chat_sender
      else after_remote g continues (Sessions.send_chat print sends said.message g.remote_session)
  on_chat (err (unsupported_chat_flag flag)) g = proceed g
  on_chat (err e) g = refuse g (chat e)

  -- A part that has been acknowledged, a pong and any other packet are noted at most.
  unfoldable pub handle_lobby_frame : Bool → ℕ → Frame → LobbyGame → Dispatched
  unfolding on_map_size on_protobuf on_leave_request on_loaded on_action on_keepalive on_chat
      decode_lobby_chat
  handle_lobby_frame game_started now f g =
      if f.packet_id == map_size_packet_id
      then on_map_size now f g
      else if f.packet_id == map_part_not_ok_packet_id
      then refuse g part_rejected
      else if f.packet_id == protobuf_packet_id
      then on_protobuf f g
      else if f.packet_id == leave_request_packet_id
      then on_leave_request f g
      else if f.packet_id == game_loaded_self_packet_id
      then on_loaded game_started f g
      else if f.packet_id == outgoing_action_packet_id
      then on_action game_started f g
      else if f.packet_id == outgoing_keepalive_packet_id
      then on_keepalive game_started f g
      else if f.packet_id == chat_to_host_packet_id
      then on_chat (decode_lobby_chat f) g
      else proceed g
