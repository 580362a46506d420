-- ===== src/Session/Serving.antt =====
-- A session from its join to its cleanup: `serve_lobby_socket` and the loop of
-- `run_connected_lobby_socket` of apps/strajer-server/src/http.rs, as a step for each event that
-- `select!` takes. The room that a step starts from may have changed since the last one.
-- `RecvError::Closed` cannot happen, since the session holds the room that sends the updates.
pub mod Steps
pub mod Sessions
use strajer.Common.{
  ℕ, ◌+◌, ◌≡◌, List, [], ◌∷◌, ◌++◌, Option, none, some, Result, ok, err, get_elem?,
}
use strajer.Common.Bytes.{Bytes, IsByte}
use strajer.Common.Texts.{Text}
use strajer.Tunnel.{lobby_session_protocol_version}
use strajer.Protocol.{disconnect}
use strajer.Protocol.Messages.{
  AgentLobbyMessage, ServerLobbyMessage, LobbyJoinRejection, join_player_name,
}
use strajer.Room.{Room, LobbyUpdate, LobbyJoinError}
use strajer.Room.Lobby.{LobbyMembership, join}
use strajer.Room.Play.{leave}
use strajer.Session.{SessionError, unreadable, Message, receive_join_message, map_join_error}
use strajer.Session.Loop.{
  Sending, Flow, goes_on, finishes, quiet, followed, ◌>>◌, send_server_message, on_update, on_lag,
  on_heartbeat, on_message,
}

-- `cursor` is the number of updates that the receiver of the membership has taken or lost.
pub record Member : Type 0 where
  pub player_id : ℕ
  pub session_id : ℕ
  pub cursor : ℕ
  pub last_client_activity : ℕ

pub data Phase : Type 0 where
  opening closed : Phase
  connected : Member → Phase

-- The room, and a socket with what was sent on it.
pub record World : Type 0 where
  pub room : Room
  pub phase : Phase
  pub sent : List Message

-- `opens` carries what `receive_join_message` gets; `ends` is the end of the socket's stream and
-- `breaks` any failure of it; times are those of `Instant::now()`.
pub data Event : Type 0 where
  opens : Option Message → (now : ℕ) → Event
  receives : Message → (now : ℕ) → Event
  ends breaks : Event
  ticks : (now : ℕ) → Event
  delivers : Event
  lags : (skipped : ℕ) → Event

-- `updates.recv()`: it waits where there is no update yet.
module _ (print : ServerLobbyMessage → Option Text) where
  abbrev pub delivered : Option LobbyUpdate → Sending Flow
  delivered none = quiet (ok goes_on)
  delivered (some u) = on_update print u

abbrev pub advance : Member → Option LobbyUpdate → Member
advance c none = c
advance c (some u) = record c { cursor = c.cursor + 1 }

abbrev pub joined_message : LobbyMembership → ServerLobbyMessage
joined_message m = ServerLobbyMessage.joined lobby_session_protocol_version m.player_id m.roster

abbrev pub member : LobbyMembership → ℕ → Member
member m now = record {
  player_id = m.player_id;
  session_id = m.session_id;
  cursor = m.updates;
  last_client_activity = now;
}

module _ (hash : Bytes → ℕ) where
  -- The cleanup behind the loop; its error is only logged.
  unfoldable pub clean_up : Member → World → World
  clean_up c w = record w {
    room = (leave hash c.player_id c.session_id disconnect w.room).1;
    phase = closed;
  }

  -- The end of one arm of the loop.
  unfoldable pub settle : Member → Result SessionError Flow → World → World
  unfolding clean_up
  settle c (ok goes_on) w = record w { phase = connected c }
  settle c (ok finishes) w = clean_up c w
  settle c (err e) w = clean_up c w

  abbrev pub settle_sending : Member → Sending Flow → World → World
  settle_sending c s w = settle c s.outcome (record w { sent = w.sent ++ s.messages })

module _ (hash : Bytes → ℕ) (parse : Text → Option AgentLobbyMessage)
    (print : ServerLobbyMessage → Option Text) where
  -- `let _ = send_server_message(..)` of a rejection: an error is dropped.
  abbrev pub reject : LobbyJoinRejection → World → World
  reject code w = record w {
    phase = closed;
    sent = w.sent ++ (send_server_message print (ServerLobbyMessage.rejected code)).messages;
  }

  -- What follows `room.join`.
  unfoldable pub enter : ℕ → Result LobbyJoinError LobbyMembership → World → World
  unfolding settle
  enter now (err e) w = reject (map_join_error e) w
  enter now (ok m) w =
      settle_sending hash (member m now)
        (send_server_message print (joined_message m) >> quiet (ok goes_on)) w

  abbrev join_named : ℕ → Option Text → World → World
  join_named now none w = reject LobbyJoinRejection.invalid_request w
  join_named now (some player_name) w =
      let (x, r) = join player_name w.room in enter now x (record w { room = r })

  unfoldable pub open_session : ℕ → Result LobbyJoinRejection AgentLobbyMessage → World → World
  unfolding enter
  open_session now (err code) w = reject code w
  open_session now (ok m) w = join_named now (join_player_name m) w

  -- One arm of the loop.
  unfoldable pub on_event : Event → Member → World → World
  unfolding settle
  on_event (opens m now) c w = w
  on_event (receives m now) c w =
      let (s, r) = on_message hash parse print c.player_id c.session_id now m w.room in
      settle_sending hash (record c { last_client_activity = now }) s (record w { room = r })
  on_event ends c w = settle hash c (ok finishes) w
  on_event breaks c w = settle hash c (err unreadable) w
  on_event (ticks now) c w = settle_sending hash c (on_heartbeat c.last_client_activity now) w
  on_event delivers c w =
      let next = get_elem? w.room.updates c.cursor in
      settle_sending hash (advance c next) (delivered print next) w
  on_event (lags skipped) c w =
      settle_sending hash (record c { cursor = c.cursor + skipped }) (on_lag print w.room) w

  abbrev pub opened : Event → World → World
  opened (opens m now) w = open_session now (receive_join_message parse m) w
  opened (receives m now) w = w
  opened ends w = w
  opened breaks w = w
  opened (ticks now) w = w
  opened delivers w = w
  opened (lags skipped) w = w

  abbrev pub in_phase : Phase → Event → World → World
  in_phase opening e w = opened e w
  in_phase closed e w = w
  in_phase (connected c) e w = on_event e c w

  unfoldable pub serve : Event → World → World
  unfolding open_session on_event
  serve e w = in_phase w.phase e w
