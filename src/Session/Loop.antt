-- ===== src/Session/Loop.antt =====
-- What a player is sent: the arms of the loop of `run_connected_lobby_socket` and the functions that send,
-- of apps/strajer-server/src/http.rs. That the socket fails in the middle of a send is the event
-- `breaks` of Session/Serving.
use strajer.Common.{ℕ, List, [], ◌∷◌, ◌++◌, Option, none, some, if◌then◌else◌, Result, ok, err}
use strajer.Common.Bytes.{Bytes}
use strajer.Common.Texts.{Text}
use strajer.Protocol.Messages.{AgentLobbyMessage, ServerLobbyMessage}
use strajer.Room.{Room, LobbyUpdate, LobbyPhase, waiting, counting_down, loading, playing, ended}
use strajer.Room.Lobby.{control_snapshot}
use strajer.Session.{
  SessionError, idle_timed_out, unrecoverable_lag, Message, text, binary, ping, pong, close,
  lobby_client_idle_timeout, lobby_client_idle_timed_out, encode_server_message,
  encode_server_game_message,
}
use strajer.Session.Handlers.{handle_active_agent_message, handle_active_agent_game_message}

-- The messages sent, and how it ended.
pub record Sending (A : Type 0) : Type 0 where
  pub messages : List Message
  pub outcome : Result SessionError A

-- Whether the loop goes on, or the session is over.
pub data Flow : Type 0 where
  goes_on finishes : Flow

module _ {A : Type 0} where
  abbrev pub quiet : Result SessionError A → Sending A
  quiet x = record { messages = []; outcome = x }

  abbrev pub followed : List Message → Result SessionError (Unit {0}) → Sending A → Sending A
  followed ms (ok u) s = record { messages = ms ++ s.messages; outcome = s.outcome }
  followed ms (err e) s = record { messages = ms; outcome = err e }

  infixl 5 ◌>>◌
  abbrev pub ◌>>◌ : Sending (Unit {0}) → Sending A → Sending A
  m >> k = followed m.messages m.outcome k

-- `socket.send(message?)`
abbrev pub send_result : Result SessionError Message → Sending (Unit {0})
send_result (ok m) = record { messages = m ∷ []; outcome = ok tt }
send_result (err e) = quiet (err e)

module _ (print : ServerLobbyMessage → Option Text) where
  abbrev pub send_server_message : ServerLobbyMessage → Sending (Unit {0})
  send_server_message message = send_result (encode_server_message print message)

  -- The loop over the players who have loaded.
  unfoldable pub send_loaded : List ℕ → Sending (Unit {0})
  send_loaded [] = quiet (ok tt)
  send_loaded (player_id ∷ rest) = do
    send_server_message (ServerLobbyMessage.player_loaded player_id)
    send_loaded rest

  -- The `match` on the phase.
  unfoldable pub send_phase : LobbyPhase → List ℕ → Sending (Unit {0})
  unfolding send_loaded
  send_phase waiting loaded = quiet (ok tt)
  send_phase (counting_down remaining_seconds) loaded =
      send_server_message (ServerLobbyMessage.countdown remaining_seconds)
  send_phase loading loaded = do send_server_message ServerLobbyMessage.start; send_loaded loaded
  send_phase playing loaded = quiet (err unrecoverable_lag)
  send_phase ended loaded = quiet (err unrecoverable_lag)

  unfoldable pub send_lobby_control_snapshot : Room → Sending (Unit {0})
  unfolding send_phase
  send_lobby_control_snapshot r = do
    let snapshot = control_snapshot r
    send_server_message (ServerLobbyMessage.roster snapshot.roster)
    send_phase snapshot.phase snapshot.loaded_player_ids

  -- The message of an update that is not of the game.
  abbrev pub relayed : ServerLobbyMessage → Sending Flow
  relayed message = send_server_message message >> quiet (ok goes_on)

  -- The arm for an update.
  unfoldable pub on_update : LobbyUpdate → Sending Flow
  on_update (LobbyUpdate.roster r) = relayed (ServerLobbyMessage.roster r)
  on_update (LobbyUpdate.countdown remaining_seconds) =
      relayed (ServerLobbyMessage.countdown remaining_seconds)
  on_update LobbyUpdate.countdown_cancelled = relayed ServerLobbyMessage.countdown_cancelled
  on_update (LobbyUpdate.chat from_player_id message) =
      relayed (ServerLobbyMessage.chat from_player_id message)
  on_update LobbyUpdate.start = relayed ServerLobbyMessage.start
  on_update (LobbyUpdate.player_loaded player_id) =
      relayed (ServerLobbyMessage.player_loaded player_id)
  on_update (LobbyUpdate.player_left player_id reason left) =
      relayed (ServerLobbyMessage.player_left player_id reason left)
  on_update (LobbyUpdate.game_frame sequence f) =
      send_result (encode_server_game_message sequence f) >> quiet (ok goes_on)
  on_update (LobbyUpdate.game_over reason) =
      send_server_message (ServerLobbyMessage.game_ended reason) >> quiet (ok finishes)

  -- The arm for `RecvError::Lagged`.
  unfoldable pub on_lag : Room → Sending Flow
  unfolding send_lobby_control_snapshot
  on_lag r = send_lobby_control_snapshot r >> quiet (ok goes_on)

  -- What follows `handle_active_agent_message`.
  abbrev pub respond : Result SessionError (Option ServerLobbyMessage) → Sending Flow
  respond (ok none) = quiet (ok goes_on)
  respond (ok (some response)) = relayed response
  respond (err e) = quiet (err e)

-- The arm for a tick of the heartbeat.
unfoldable pub on_heartbeat : ℕ → ℕ → Sending Flow
on_heartbeat last_client_activity now =
    if lobby_client_idle_timed_out last_client_activity now lobby_client_idle_timeout
    then quiet (err idle_timed_out)
    else record { messages = ping [] ∷ []; outcome = ok goes_on }

-- What follows `handle_active_agent_game_message`.
abbrev pub proceed : Result SessionError (Unit {0}) → Sending Flow
proceed (ok u) = quiet (ok goes_on)
proceed (err e) = quiet (err e)

module _ (hash : Bytes → ℕ) (parse : Text → Option AgentLobbyMessage)
    (print : ServerLobbyMessage → Option Text) where
  -- The arm for a message of the socket.
  unfoldable pub on_message : ℕ → ℕ → ℕ → Message → Room → Sending Flow × Room
  on_message player_id session_id now (ping payload) r =
      (record { messages = pong payload ∷ []; outcome = ok goes_on }, r)
  on_message player_id session_id now (pong payload) r = (quiet (ok goes_on), r)
  on_message player_id session_id now close r = (quiet (ok finishes), r)
  on_message player_id session_id now (text t) r =
      let (x, r') = handle_active_agent_message hash player_id session_id now parse t r in
      (respond print x, r')
  on_message player_id session_id now (binary payload) r =
      let (x, r') = handle_active_agent_game_message hash player_id session_id payload r in
      (proceed x, r')
