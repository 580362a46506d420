-- ===== src/Room/Play.antt =====
-- The handlers of `LobbyRoom` around a running game, and `leave`: apps/strajer-server/src/lobby.rs.
use strajer.Common.{
  ℕ, ◌+◌, Bool, true, false, not, ◌&&◌, ◌||◌, List, [], ◌∷◌, ◌++◌, Option, none, some, ltb, leb,
  ◌==◌, ok, ok_or, map_err, checked_add, length, is_empty,
}
use strajer.Common.Bytes.{Bytes, u64_max}
use strajer.Protocol.{LobbyLeaveReason, GameEndReason, desync}
use strajer.Frame.{Frame, to_bytes}
use strajer.Game.{PlayerAction}
use strajer.Game.Incoming.{incoming_action_frames}
use strajer.Room.{
  ConnectedPlayer, LobbyRoomState, LobbyUpdate, end_game, run_gameplay, last_player_game_over,
  LobbyMembershipError, unknown_session, game_not_started, game_not_running, action_player_mismatch,
  action_queue_full, checksum_queue_full, gameplay_generation_exhausted,
  gameplay_sequence_exhausted, gameplay_frame_encoding, minimum_manual_start_players,
  max_pending_game_actions, max_pending_game_action_bytes, max_pending_checksums_per_player,
}
use strajer.Room.Players.{get, remove, modify}
use strajer.Room.State
use strajer.Room.State.{
  saturating_add, next_revision, all_loaded, session_matches, require_active_session,
  accept_game_sequence, reset_game,
}
use strajer.Room.Consensus.{consume_checksum_consensus}
use strajer.Room.Actions.{
  Action, pure, from, ◌>>=◌, ◌>>◌, get_state, gets, put_state, reject_when, when, broadcast, spawn,
  test◌then◌else◌,
}

unfoldable pub begin_gameplay_if_ready : Action LobbyMembershipError (Option ℕ)
begin_gameplay_if_ready = do
  s ← get_state
  test not s.started
        || (s.gameplay_active
            || (s.game_ended
                || (ltb (length s.players) minimum_manual_start_players
                    || not (all_loaded s.players))))
      then pure none
      else do
        generation ←
            from (ok_or (checked_add u64_max s.gameplay_generation 1) gameplay_generation_exhausted)
        put_state (record s {
          gameplay_generation = generation;
          gameplay_active = true;
          gameplay_sequence = 0;
        })
        pure (some generation)

-- `if let Some(generation) = gameplay_generation { self.spawn_gameplay(generation) }`
abbrev pub spawn_gameplay : Option ℕ → Action LobbyMembershipError (Unit {0})
spawn_gameplay none = pure tt
spawn_gameplay (some generation) = spawn (run_gameplay generation)

abbrev pub set_loaded : ConnectedPlayer → ConnectedPlayer
set_loaded p = record p { loaded = true }

unfoldable pub mark_loaded : ℕ → ℕ → Action LobbyMembershipError (Unit {0})
mark_loaded player_id session_id = do
  s ← get_state
  from (require_active_session s player_id session_id)
  reject_when (not s.started || s.game_ended) game_not_started
  player ← from (ok_or (get player_id s.players) unknown_session)
  test player.loaded then pure tt else do
    put_state (record s { players = modify player_id set_loaded s.players })
    broadcast (LobbyUpdate.player_loaded player_id)
    generation ← begin_gameplay_if_ready
    spawn_gameplay generation

unfoldable pub submit_action : ℕ → ℕ → ℕ → PlayerAction → Action LobbyMembershipError (Unit {0})
submit_action player_id session_id sequence action = do
  s ← get_state
  from (require_active_session s player_id session_id)
  reject_when (not s.gameplay_active || s.game_ended) game_not_running
  reject_when (not (action.player_id == player_id)) action_player_mismatch
  let action_bytes = length action.bytes + 3
  reject_when
      (leb max_pending_game_actions (length s.pending_actions)
        || ltb max_pending_game_action_bytes (saturating_add s.pending_action_bytes action_bytes))
      action_queue_full
  s' ← from (accept_game_sequence s player_id sequence)
  put_state (record s' {
    pending_action_bytes = s'.pending_action_bytes + action_bytes;
    pending_actions = s'.pending_actions ++ (action ∷ []);
  })

abbrev pub checksums_full : Option ConnectedPlayer → Bool
checksums_full none = false
checksums_full (some p) = leb max_pending_checksums_per_player (length p.checksums)

abbrev pub push_checksum : ℕ → ConnectedPlayer → ConnectedPlayer
push_checksum checksum p = record p { checksums = p.checksums ++ (checksum ∷ []) }

-- The state with one more report of a player, before the comparison.
abbrev pub reported : ℕ → ℕ → LobbyRoomState → LobbyRoomState
reported player_id checksum s = record s {
  players = modify player_id (push_checksum checksum) s.players;
}

-- `get_mut(&player_id).ok_or(UnknownSession)` cannot fail once `accept_game_sequence` has found the
-- player, and is written out nevertheless.
unfoldable pub submit_keepalive : ℕ → ℕ → ℕ → ℕ → Action LobbyMembershipError (Unit {0})
submit_keepalive player_id session_id sequence checksum = do
  s ← get_state
  from (require_active_session s player_id session_id)
  reject_when (not s.gameplay_active || s.game_ended) game_not_running
  reject_when (checksums_full (get player_id s.players)) checksum_queue_full
  s' ← from (accept_game_sequence s player_id sequence)
  put_state s'
  player ← from (ok_or (get player_id s'.players) unknown_session)
  let consumed = consume_checksum_consensus (reported player_id checksum s').players
  put_state (record s' { players = consumed.1 })
  when consumed.0 (spawn (end_game desync))

-- `end_game`, as the step that takes the lock.
unfoldable pub finish_game : GameEndReason → Action LobbyMembershipError (Unit {0})
finish_game reason = do
  s ← get_state
  test not s.started || s.game_ended
      then pure tt
      else test is_empty s.players
      then put_state (reset_game s)
      else do
        put_state (record s {
          gameplay_active = false;
          game_ended = true;
          gameplay_generation = saturating_add s.gameplay_generation 1;
          pending_actions = [];
          pending_action_bytes = 0;
        })
        broadcast (LobbyUpdate.game_over reason)

-- The loop over the frames of a timeslot.
unfoldable pub publish_frames : List Frame → Action LobbyMembershipError (Unit {0})
publish_frames [] r = (ok tt, r)
publish_frames (f ∷ fs) r =
    (do
      s ← get_state
      sequence ←
          from (ok_or (checked_add u64_max s.gameplay_sequence 1) gameplay_sequence_exhausted)
      put_state (record s { gameplay_sequence = sequence })
      broadcast (LobbyUpdate.game_frame sequence (to_bytes f))
      publish_frames fs)
      r

-- The state without the player, with whatever countdown there was stopped.
abbrev pub departed : ℕ → LobbyRoomState → LobbyRoomState
departed player_id s = record s {
  players = remove player_id s.players;
  revision = next_revision s.revision;
  countdown_active = false;
  countdown_remaining_seconds = none;
  manual_start_requested = false;
}

unfoldable pub remove_player : ℕ → LobbyLeaveReason → Action LobbyMembershipError (Unit {0})
remove_player player_id reason = do
  s ← get_state
  let s' = departed player_id s
  put_state s'
  test s.started then broadcast (LobbyUpdate.player_left player_id reason (State.roster s')) else do
    broadcast (LobbyUpdate.roster (State.roster s'))
    when s.countdown_active (broadcast LobbyUpdate.countdown_cancelled)

unfoldable pub after_departure : Bool → Action LobbyMembershipError (Unit {0})
after_departure game_had_started = do
  s ← get_state
  test is_empty s.players
      then put_state (reset_game s)
      else test game_had_started && length s.players == 1
      then spawn (last_player_game_over s.gameplay_generation)
      else do generation ← begin_gameplay_if_ready; spawn_gameplay generation

module _ (hash : Bytes → ℕ) where
  unfoldable pub publish_pending_actions : ℕ → Action LobbyMembershipError (Unit {0})
  publish_pending_actions time_increment_ms = do
    s ← get_state
    put_state (record s { pending_actions = []; pending_action_bytes = 0 })
    frames ← from (
        map_err (λ _. gameplay_frame_encoding)
          (incoming_action_frames hash time_increment_ms s.pending_actions))
    publish_frames frames

  unfoldable pub publish_gameplay_tick : ℕ → Action LobbyMembershipError Bool
  publish_gameplay_tick generation = do
    s ← get_state
    tick_increment_ms ← gets (λ r. r.gameplay_policy.tick_increment_ms)
    test not s.gameplay_active
          || (s.game_ended || (not (s.gameplay_generation == generation) || is_empty s.players))
        then pure false
        else do publish_pending_actions tick_increment_ms; pure true

  unfoldable pub leave : ℕ → ℕ → LobbyLeaveReason → Action LobbyMembershipError (Unit {0})
  leave player_id session_id reason = do
    s ← get_state
    test not (session_matches session_id (get player_id s.players)) then pure tt else do
      when (s.gameplay_active && not (is_empty s.pending_actions)) (publish_pending_actions 0)
      remove_player player_id reason
      after_departure s.started
