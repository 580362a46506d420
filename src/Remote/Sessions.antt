-- ===== src/Remote/Sessions.antt =====
-- `RemoteLobbySession` of apps/strajer-agent/src/remote_lobby.rs: what the agent sends, and the loop
-- that waits for the next event as a step for each thing that it takes.
use strajer.Common.{
  ℕ, Bool, true, not, List, [], ◌∷◌, ◌++◌, Option, none, some, ltb, if◌then◌else◌, Result, ok, err,
  ◌>>=◌, ◌>>◌, reject_if, map_err, ok_or, checked_add,
}
use strajer.Common.Bytes.{Bytes, u64_max}
use strajer.Common.Texts.{Text, str_len}
use strajer.Frame.{Frame, to_bytes}
use strajer.Tunnel.Agent
use strajer.Protocol.{LobbyLeaveReason, max_lobby_control_message_bytes}
use strajer.Protocol.Messages.{
  AgentLobbyMessage, ServerLobbyMessage, new_join, new_ready, new_loaded, new_chat, new_leave,
}
use strajer.Remote.{
  RemoteError, encoding, encoded_too_large, not_sent, unreadable, tunnel, invalid, closed_early,
  sequence_exhausted, idle_timed_out, Message, RemoteLobbySession, RemoteLobbyEvent,
  RemoteServerMessage, control, game, remote_server_idle_timeout, remote_server_idle_timed_out,
}
use strajer.Remote.Incoming.{
  handle_server_websocket_message, validate_active_server_message,
  validate_active_server_game_message, accept_joined,
}

module _ (print : AgentLobbyMessage → Option Text) (sends : Bool) where
  -- What `send_agent_message` gives the socket.
  unfoldable pub encode_agent_message : AgentLobbyMessage → Result RemoteError Message
  encode_agent_message message = do
    t ← ok_or (print message) encoding
    reject_if (ltb max_lobby_control_message_bytes (str_len t)) encoded_too_large
    reject_if (not sends) not_sent
    ok (Message.text t)

  -- The session behind a send: it is changed only if the send succeeds.
  abbrev after_send :
      Result RemoteError Message
      → (RemoteLobbySession → RemoteLobbySession)
      → RemoteLobbySession
      → Result RemoteError (Unit {0}) × RemoteLobbySession
  after_send (ok m) change s = (ok tt, change (record s { sent = s.sent ++ (m ∷ []) }))
  after_send (err e) change s = (err e, s)

  abbrev set_ready_sent : RemoteLobbySession → RemoteLobbySession
  set_ready_sent s = record s { ready_sent = true }

  abbrev set_loaded_sent : RemoteLobbySession → RemoteLobbySession
  set_loaded_sent s = record s { loaded_sent = true }

  unfoldable pub mark_ready :
      RemoteLobbySession → Result RemoteError (Unit {0}) × RemoteLobbySession
  unfolding encode_agent_message
  mark_ready s =
      if s.ready_sent
      then (ok tt, s)
      else after_send (encode_agent_message new_ready) set_ready_sent s

  unfoldable pub mark_loaded :
      RemoteLobbySession → Result RemoteError (Unit {0}) × RemoteLobbySession
  unfolding encode_agent_message
  mark_loaded s =
      if s.loaded_sent
      then (ok tt, s)
      else after_send (encode_agent_message new_loaded) set_loaded_sent s

  unfoldable pub send_chat :
      Text → RemoteLobbySession → Result RemoteError (Unit {0}) × RemoteLobbySession
  unfolding encode_agent_message
  send_chat message s =
      after_send (map_err invalid (new_chat message) >>= encode_agent_message) (λ t. t) s

  unfoldable pub leave :
      LobbyLeaveReason → RemoteLobbySession → Result RemoteError (Unit {0}) × RemoteLobbySession
  unfolding encode_agent_message
  leave reason s = after_send (encode_agent_message (new_leave reason)) (λ t. t) s

  unfoldable pub encode_game_frame : ℕ → Frame → Result RemoteError Message
  encode_game_frame sequence f = do
    message ← map_err tunnel (Agent.w3gs_frame sequence (to_bytes f))
    reject_if (not sends) not_sent
    ok (Message.binary (Agent.encode message))

  abbrev send_numbered :
      Option ℕ → Frame → RemoteLobbySession → Result RemoteError (Unit {0}) × RemoteLobbySession
  send_numbered none f s = (err sequence_exhausted, s)
  send_numbered (some sequence) f s =
      after_send (encode_game_frame sequence f)
        (λ t. record t { last_sent_game_sequence = sequence }) s

  unfoldable pub send_game_frame :
      Frame → RemoteLobbySession → Result RemoteError (Unit {0}) × RemoteLobbySession
  unfolding encode_game_frame
  send_game_frame f s = send_numbered (checked_add u64_max s.last_sent_game_sequence 1) f s

-- `waits` is `continue`; `yields none` is the end of the session.
pub data Next : Type 0 where
  waits : Next
  yields : Option RemoteLobbyEvent → Next

module _ (hash : Bytes → ℕ) (parse : Text → Option ServerLobbyMessage) where
  abbrev dispatch :
      Option RemoteServerMessage
      → RemoteLobbySession
      → Result RemoteError (Next × RemoteLobbySession)
  dispatch none s = ok (waits, s)
  dispatch (some (control message)) s = do
    event ← validate_active_server_message s message
    ok (yields event, s)
  dispatch (some (game sequence f)) s = do
    checked ← validate_active_server_game_message hash s sequence f
    ok (yields checked.0, checked.1)

  -- The arm for what the socket yields: no message at its end, or a message that may be unreadable.
  unfoldable pub on_received :
      Bool
      → Option (Option Message)
      → ℕ
      → RemoteLobbySession
      → Result RemoteError (Next × RemoteLobbySession)
  on_received sends none now s = ok (yields none, s)
  on_received sends (some none) now s = err unreadable
  on_received sends (some (some m)) now s = do
    let active = record s { last_server_activity = now }
    handled ← handle_server_websocket_message parse sends m
    dispatch handled.message (record active { sent = active.sent ++ handled.replies })

  -- `receive_server_message` on what the socket yields, one after the other. Whether it takes a reply
  -- may depend on what was sent before.
  unfoldable pub receive_server_message :
      (List Message → Bool)
      → List (Option Message)
      → List Message
      → Result RemoteError (Option RemoteServerMessage × List Message)
  receive_server_message sends [] sent = ok (none, sent)
  receive_server_message sends (none ∷ rest) sent = err unreadable
  receive_server_message sends (some m ∷ rest) sent = do
    handled ← handle_server_websocket_message parse (sends sent) m
    let sent' = sent ++ handled.replies
    elim handled.message [
      | some message ↦ ok (some message, sent')
      | none ↦ receive_server_message sends rest sent'
    ]

  -- `connect` behind the upgrade: it sends the join and waits for the answer among what the socket yields.
  module _ (print : AgentLobbyMessage → Option Text) (sends : List Message → Bool) where
    unfoldable pub connect :
        ℕ → Text → ℕ → List (Option Message) → Result RemoteError RemoteLobbySession
    unfolding encode_agent_message receive_server_message
    connect human_player_capacity player_name now received = do
      join ← map_err invalid (new_join player_name)
      sent ← encode_agent_message print (sends []) join
      answer ← receive_server_message sends received (sent ∷ [])
      joined ← ok_or answer.0 closed_early
      accept_joined human_player_capacity player_name now answer.1 joined

-- The arm for a tick of the heartbeat.
unfoldable pub on_tick : Bool → ℕ → RemoteLobbySession → Result RemoteError RemoteLobbySession
on_tick sends now s = do
  reject_if (remote_server_idle_timed_out s.last_server_activity now remote_server_idle_timeout)
      idle_timed_out
  reject_if (not sends) not_sent
  ok (record s { sent = s.sent ++ (Message.ping [] ∷ []) })
