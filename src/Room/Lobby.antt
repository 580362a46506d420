-- ===== src/Room/Lobby.antt =====
-- The handlers of `LobbyRoom` before the game: apps/strajer-server/src/lobby.rs.
use strajer.Common.{
  ℕ, zero, suc, ◌+◌, Bool, true, false, not, ◌&&◌, List, [], Option, none, some, ltb, leb,
  if◌then◌else◌, ok_or, checked_add, any, length, list_eq,
}
use strajer.Common.Bytes.{u64_max}
use strajer.Common.Texts.{Text}
use strajer.Protocol.{LobbyRoster}
use strajer.Room.{
  Room, ConnectedPlayer, LobbyRoomState, LobbyUpdate, send, run_countdown, LobbyJoinError, full,
  has_started, countdown_running, duplicate_player_name, session_id_exhausted, LobbyMembershipError,
  unknown_session, countdown_generation_exhausted, ManualStartOutcome, has_begun,
  already_counting_down, already_started, not_enough_players, players_not_ready, LobbyPhase,
  waiting, counting_down, loading, playing, ended, minimum_manual_start_players,
}
use strajer.Room.Players.{get, contains_key, insert, modify, values}
use strajer.Room.State
use strajer.Room.State.{
  next_revision, all_ready, can_start_automatic_countdown, can_start_requested_countdown,
  with_session, require_active_session, is_duplicate_chat, loaded_player_ids,
}
use strajer.Room.Actions.{
  Action, pure, from, ◌>>=◌, ◌>>◌, get_state, gets, put_state, reject_when, broadcast, spawn,
  test◌then◌else◌,
}

-- `(1..=maximum_players).find(|candidate| !players.contains_key(candidate))`: the candidates are
-- `candidate`, `candidate + 1` and so on, as many as the first number says.
unfoldable pub first_free : ℕ → ℕ → List (ℕ × ConnectedPlayer) → Option ℕ
first_free zero candidate m = none
first_free (suc n) candidate m =
    if contains_key candidate m then first_free n (candidate + 1) m else some candidate

-- The receiver of a membership is the number of updates that were sent before it subscribed.
pub record LobbyMembership : Type 0 where
  pub player_id : ℕ
  pub session_id : ℕ
  pub roster : LobbyRoster
  pub updates : ℕ

abbrev pub new_player : ℕ → Text → ConnectedPlayer
new_player session_id name = record {
  session_id = session_id;
  name = name;
  ready = false;
  loaded = false;
  last_chat = none;
  last_game_sequence = 0;
  checksums = [];
}

abbrev pub name_taken : Text → List (ℕ × ConnectedPlayer) → Bool
name_taken name m = any (λ p. list_eq p.name name) (values m)

-- The state that a player has joined.
abbrev pub joined : ℕ → ℕ → Text → LobbyRoomState → LobbyRoomState
joined player_id next_session_id name s = record s {
  next_session_id = next_session_id;
  players = insert player_id (new_player s.next_session_id name) s.players;
  revision = next_revision s.revision;
}

unfoldable pub join : Text → Action LobbyJoinError LobbyMembership
join player_name = do
  updates ← gets (λ r. length r.updates)
  maximum_players ← gets (λ r. r.maximum_players)
  s ← get_state
  reject_when s.started has_started
  reject_when s.countdown_active countdown_running
  reject_when (leb maximum_players (length s.players)) full
  reject_when (name_taken player_name s.players) duplicate_player_name
  player_id ← from (ok_or (first_free maximum_players 1 s.players) full)
  next_session_id ← from (ok_or (checked_add u64_max s.next_session_id 1) session_id_exhausted)
  let s' = joined player_id next_session_id player_name s
  put_state s'
  spawn (send (LobbyUpdate.roster (State.roster s')))
  pure (record {
    player_id = player_id;
    session_id = s.next_session_id;
    roster = State.roster s';
    updates = updates;
  })

unfoldable pub begin_countdown : Action LobbyMembershipError ℕ
begin_countdown = do
  s ← get_state
  initial_seconds ← gets (λ r. r.countdown_policy.initial_seconds)
  generation ←
      from (ok_or (checked_add u64_max s.countdown_generation 1) countdown_generation_exhausted)
  put_state (record s {
    countdown_generation = generation;
    countdown_active = true;
    countdown_remaining_seconds = some initial_seconds;
    manual_start_requested = false;
  })
  broadcast (LobbyUpdate.countdown initial_seconds)
  pure generation

-- `run_countdown` starts from the seconds of the policy.
unfoldable pub spawn_countdown : ℕ → Action LobbyMembershipError (Unit {0})
spawn_countdown generation = do
  initial_seconds ← gets (λ r. r.countdown_policy.initial_seconds)
  spawn (run_countdown generation initial_seconds)

abbrev pub set_ready : ConnectedPlayer → ConnectedPlayer
set_ready p = record p { ready = true }

unfoldable pub mark_ready : ℕ → ℕ → Action LobbyMembershipError (Unit {0})
mark_ready player_id session_id = do
  s ← get_state
  maximum_players ← gets (λ r. r.maximum_players)
  player ← from (ok_or (with_session session_id (get player_id s.players)) unknown_session)
  let s' = record s { players = modify player_id set_ready s.players }
  test player.ready then pure tt else do
    put_state s'
    test not (can_start_automatic_countdown s' maximum_players)
          && not (can_start_requested_countdown s')
        then pure tt
        else do generation ← begin_countdown; spawn_countdown generation

abbrev pub set_chat : Text → ℕ → ConnectedPlayer → ConnectedPlayer
set_chat message now p = record p {
  last_chat = some (record { message = message; received_at = now });
}

-- `now` is `Instant::now()`.
unfoldable pub publish_chat : ℕ → ℕ → Text → ℕ → Action LobbyMembershipError Bool
publish_chat player_id session_id message now = do
  s ← get_state
  player ← from (ok_or (with_session session_id (get player_id s.players)) unknown_session)
  test is_duplicate_chat player message now then pure false else do
    put_state (record s { players = modify player_id (set_chat message now) s.players })
    spawn (send (LobbyUpdate.chat player_id message))
    pure true

unfoldable pub request_manual_start : ℕ → ℕ → Action LobbyMembershipError ManualStartOutcome
request_manual_start player_id session_id = do
  s ← get_state
  from (require_active_session s player_id session_id)
  test s.started
      then pure already_started
      else test s.countdown_active
      then pure already_counting_down
      else test ltb (length s.players) minimum_manual_start_players
      then pure not_enough_players
      else test not (all_ready s.players)
      then (do put_state (record s { manual_start_requested = true }); pure players_not_ready)
      else do generation ← begin_countdown; spawn_countdown generation; pure has_begun

pub record LobbyControlSnapshot : Type 0 where
  pub roster : LobbyRoster
  pub phase : LobbyPhase
  pub loaded_player_ids : List ℕ

abbrev pub waiting_phase : Option ℕ → LobbyPhase
waiting_phase none = waiting
waiting_phase (some remaining_seconds) = counting_down remaining_seconds

unfoldable pub phase : LobbyRoomState → LobbyPhase
phase s =
    if s.game_ended
    then ended
    else if s.gameplay_active
    then playing
    else if s.started
    then loading
    else waiting_phase s.countdown_remaining_seconds

unfoldable pub control_snapshot : Room → LobbyControlSnapshot
unfolding phase
control_snapshot r = record {
  roster = State.roster r.state;
  phase = phase r.state;
  loaded_player_ids = loaded_player_ids r.state;
}
