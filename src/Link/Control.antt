-- ===== src/Link/Control.antt =====
-- The updates of a room before and beside the game, from the server to the events of an agent.
pub mod Arrivals
use strajer.Common.{
  Bool, ℕ, ◌≤◌, ◌<◌, ◌≡◌, ◌≢◌, refl, false, List, [], ◌∷◌, ◌++◌, Option, none, some, ok, ltb, arith,
  ◌∙◌, Option-cases, inl, inr, append-nil,
}
use strajer.Common.Bytes.{Bytes}
use strajer.Common.Texts.{Text, str_len}
use strajer.Protocol.{LobbyPlayer, max_warcraft_players, max_lobby_control_message_bytes}
use strajer.Protocol.Roster
use strajer.Protocol.Messages.{ServerLobbyMessage}
use strajer.Room.{Room, LobbyUpdate, GameplayPolicy, new_with_policies, default_countdown_policy}
use strajer.Room.Tasks.{Reach}
use strajer.Room.Published.{Fits}
use strajer.Room.Published.Steps.{All-remove_middle, Reach-Fits}
use strajer.Session
use strajer.Session.{encode_server_message}
use strajer.Session.Loop.{on_update, send_server_message}
use strajer.Remote.{RemoteLobbySession, RemoteLobbyEvent}
use strajer.Remote.Incoming.{validate_active_server_message, handle_server_websocket_message}
use strajer.Remote.Sessions.{yields, on_received}
use strajer.Link.{carry}

-- The message that stands for an update, and the event that it is to be.
pub record Saying : Type 0 where
  pub message : ServerLobbyMessage
  pub event : RemoteLobbyEvent

abbrev pub saying : LobbyUpdate → Option Saying
saying (LobbyUpdate.roster r) =
    some (record { message = ServerLobbyMessage.roster r; event = RemoteLobbyEvent.roster r })
saying (LobbyUpdate.countdown n) =
    some (record { message = ServerLobbyMessage.countdown n; event = RemoteLobbyEvent.countdown n })
saying LobbyUpdate.countdown_cancelled = some (record {
  message = ServerLobbyMessage.countdown_cancelled;
  event = RemoteLobbyEvent.countdown_cancelled;
})
saying (LobbyUpdate.chat k t) =
    some (record { message = ServerLobbyMessage.chat k t; event = RemoteLobbyEvent.chat k t })
saying LobbyUpdate.start =
    some (record { message = ServerLobbyMessage.start; event = RemoteLobbyEvent.start })
saying (LobbyUpdate.player_loaded k) = some (record {
  message = ServerLobbyMessage.player_loaded k;
  event = RemoteLobbyEvent.player_loaded k;
})
saying (LobbyUpdate.player_left k reason left) = some (record {
  message = ServerLobbyMessage.player_left k reason left;
  event = RemoteLobbyEvent.player_left k reason left;
})
saying (LobbyUpdate.game_frame n f) = none
saying (LobbyUpdate.game_over reason) = some (record {
  message = ServerLobbyMessage.game_ended reason;
  event = RemoteLobbyEvent.game_ended reason;
})

-- A departure is of somebody else, and this player is still in the roster.
abbrev pub Remains : ℕ → LobbyUpdate → Type 0
Remains a (LobbyUpdate.player_left k reason left) =
    (k ≢ a) × (p : LobbyPlayer) × (Roster.player left a ≡ some p)
Remains a (LobbyUpdate.roster r) = Unit {0}
Remains a (LobbyUpdate.countdown n) = Unit {0}
Remains a LobbyUpdate.countdown_cancelled = Unit {0}
Remains a (LobbyUpdate.chat k t) = Unit {0}
Remains a LobbyUpdate.start = Unit {0}
Remains a (LobbyUpdate.player_loaded k) = Unit {0}
Remains a (LobbyUpdate.game_frame n f) = Unit {0}
Remains a (LobbyUpdate.game_over reason) = Unit {0}

on_update-saying :
    (print : ServerLobbyMessage → Option Text) (u : LobbyUpdate) (x : Saying)
    → saying u ≡ some x
    → (on_update print u).messages ≡ (send_server_message print x.message).messages
unfolding on_update
on_update-saying print (LobbyUpdate.roster r) x e = ground arith
on_update-saying print (LobbyUpdate.countdown n) x e = ground arith
on_update-saying print LobbyUpdate.countdown_cancelled x e = ground arith
on_update-saying print (LobbyUpdate.chat k t) x e = ground arith
on_update-saying print LobbyUpdate.start x e = ground arith
on_update-saying print (LobbyUpdate.player_loaded k) x e = ground arith
on_update-saying print (LobbyUpdate.player_left k reason left) x e = ground arith
on_update-saying print (LobbyUpdate.game_frame n f) x e = ground arith
on_update-saying print (LobbyUpdate.game_over reason) x e = ground arith

saying-valid :
    (s : RemoteLobbySession) (u : LobbyUpdate) (x : Saying)
    → saying u ≡ some x
    → Fits s.maximum_players u
    → Remains s.assigned_player_id u
    → validate_active_server_message s x.message ≡ ok (some x.event)
unfolding validate_active_server_message
saying-valid s (LobbyUpdate.roster r) x e h h' = ground arith
saying-valid s (LobbyUpdate.countdown n) x e h h' = ground arith
saying-valid s LobbyUpdate.countdown_cancelled x e h h' = ground arith
saying-valid s (LobbyUpdate.chat k t) x e h h' = ground arith
saying-valid s LobbyUpdate.start x e h h' = ground arith
saying-valid s (LobbyUpdate.player_loaded k) x e h h' = ground arith
saying-valid s (LobbyUpdate.player_left k reason left) x e h h' = ground arith
saying-valid s (LobbyUpdate.game_frame n f) x e h h' = ground arith
saying-valid s (LobbyUpdate.game_over reason) x e h h' = ground arith

module _ (print : ServerLobbyMessage → Option Text) (parse : Text → Option ServerLobbyMessage)
    (codec : (m : ServerLobbyMessage) (t : Text) → print m ≡ some t → parse t ≡ some m) where
  -- What is sent is no longer than what is received, and is read back.
  encoded :
      (m : ServerLobbyMessage) (message : Session.Message)
      → encode_server_message print m ≡ ok message
      → (t : Text) × (message ≡ Session.Message.text t)
        × (ltb max_lobby_control_message_bytes (str_len t) ≡ false)
        × (parse t ≡ some m)
  unfolding encode_server_message
  encoded m message e = elim (Option-cases (print m)) [
    | inl absent ↦ absurd (cc (rw absent at e))
    | inr (t, found) ↦ (t, ground arith, ground arith, codec m t found)
  ]

  received :
      (hash : Bytes → ℕ) (m : ServerLobbyMessage) (event : RemoteLobbyEvent)
      (s : RemoteLobbySession) (now : ℕ) (sends : Bool) (message : Session.Message)
      → encode_server_message print m ≡ ok message
      → validate_active_server_message (record s { last_server_activity = now }) m ≡ ok (some event)
      → on_received hash parse sends (some (some (carry message))) now s
        ≡ ok (yields (some event), record s { last_server_activity = now })
  unfolding on_received handle_server_websocket_message
  received hash m event s now sends message e valid =
      let (t, same, short, read) = encoded m message e in
      rw (same, short, read, append-nil s.sent, valid) refl

  -- The server's message for a valid update, and the agent's event.
  pub update_arrives :
      (hash : Bytes → ℕ) (maximum : ℕ) (u : LobbyUpdate) (x : Saying) (s : RemoteLobbySession)
      (now : ℕ) (sends : Bool) (message : Session.Message)
      → saying u ≡ some x
      → s.maximum_players ≡ maximum
      → Fits maximum u
      → Remains s.assigned_player_id u
      → encode_server_message print x.message ≡ ok message
      → ((on_update print u).messages ≡ message ∷ [])
        × (on_received hash parse sends (some (some (carry message))) now s
            ≡ ok (yields (some x.event), record s { last_server_activity = now }))
  update_arrives hash maximum u x s now sends message says places fits remains e =
      let active : RemoteLobbySession = record s { last_server_activity = now } in
      (
        on_update-saying print u x says ∙ rw e refl,
        received hash x.message x.event s now sends message e
            (saying-valid active u x says (rw places fits) remains),
      )
