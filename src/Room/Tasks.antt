-- ===== src/Room/Tasks.antt =====
-- The tasks of a room and the interleavings of its handlers with them.
pub mod Countdown
use strajer.Common.{
  ℕ, ◌+◌, ◌-◌, ◌≡◌, Bool, true, false, not, ◌&&◌, List, [], ◌∷◌, ◌++◌, some, none, ltb, ◌==◌,
  Result, ok, err, length,
}
use strajer.Common.Bytes.{Bytes}
use strajer.Common.Texts.{Text}
use strajer.Protocol.{
  LobbyLeaveReason, last_player_standing, protocol_error, validate_lobby_player_name,
  validate_lobby_chat_message,
}
use strajer.Game.{PlayerAction}
use strajer.Game.Groups.{IsAction}
use strajer.Room.{
  Room, LobbyUpdate, Task, send, end_game, run_countdown, run_gameplay, last_player_game_over,
  LobbyMembershipError,
}
use strajer.Room.State.{countdown_matches}
use strajer.Room.Actions.{
  Action, pure, ◌>>=◌, ◌>>◌, get_state, gets, put_state, broadcast, spawn, test◌then◌else◌,
}
use strajer.Room.Lobby.{join, mark_ready, publish_chat, request_manual_start}
use strajer.Room.Play.{
  mark_loaded, submit_action, submit_keepalive, finish_game, publish_gameplay_tick, leave,
}

unfoldable pub publish_countdown_tick : ℕ → ℕ → Action LobbyMembershipError Bool
publish_countdown_tick generation remaining_seconds = do
  s ← get_state
  test not (countdown_matches s generation) then pure false else do
    put_state (record s { countdown_remaining_seconds = some remaining_seconds })
    broadcast (LobbyUpdate.countdown remaining_seconds)
    pure true

-- The end of `run_countdown`, behind its loop.
unfoldable pub finish_countdown : ℕ → Action LobbyMembershipError (Unit {0})
finish_countdown generation = do
  s ← get_state
  test not (countdown_matches s generation) then pure tt else do
    put_state
        (record s { countdown_active = false; countdown_remaining_seconds = none; started = true })
    broadcast LobbyUpdate.start

-- One wake-up of `run_countdown` with this many seconds left.
unfoldable pub countdown_step : ℕ → ℕ → Action LobbyMembershipError (Unit {0})
countdown_step generation remaining_seconds = do
  step_seconds ← gets (λ r. r.countdown_policy.step_seconds)
  let left = remaining_seconds - step_seconds
  test ltb step_seconds remaining_seconds
      then (do
        more ← publish_countdown_tick generation left
        test more then spawn (run_countdown generation left) else pure tt)
      else finish_countdown generation

-- What the loop of `run_gameplay` does with the outcome of a tick.
abbrev pub after_tick :
    ℕ → Result LobbyMembershipError Bool → Action LobbyMembershipError (Unit {0})
after_tick generation (ok true) = spawn (run_gameplay generation)
after_tick generation (ok false) = pure tt
after_tick generation (err e) = spawn (end_game protocol_error)

-- The section that the delayed task of `spawn_last_player_game_over` runs under the lock.
unfoldable pub game_over_step : ℕ → Action LobbyMembershipError (Unit {0})
game_over_step generation = do
  s ← get_state
  test s.started
        && (not s.game_ended && (length s.players == 1 && s.gameplay_generation == generation))
      then spawn (end_game last_player_standing)
      else pure tt

-- The calls that the connections of the players make.
pub data Call : Type 0 where
  joins : (player_name : Text) → Call
  readies loads requests_start : (player_id session_id : ℕ) → Call
  acts : (player_id session_id sequence : ℕ) (action : PlayerAction) → Call
  keeps_alive : (player_id session_id sequence checksum : ℕ) → Call
  chats : (player_id session_id : ℕ) (message : Text) (now : ℕ) → Call
  leaves : (player_id session_id : ℕ) (reason : LobbyLeaveReason) → Call

-- A connection calls with what its checks have let through: names and chat that the protocol accepts, and
-- actions that `PlayerAction::new` has built.
abbrev pub IsCall : Call → Type 0
IsCall (joins player_name) = validate_lobby_player_name player_name ≡ ok tt
IsCall (readies player_id session_id) = Unit {0}
IsCall (loads player_id session_id) = Unit {0}
IsCall (requests_start player_id session_id) = Unit {0}
IsCall (acts player_id session_id sequence action) = IsAction action
IsCall (keeps_alive player_id session_id sequence checksum) = Unit {0}
IsCall (chats player_id session_id message now) = validate_lobby_chat_message message ≡ ok tt
IsCall (leaves player_id session_id reason) = Unit {0}

module _ (hash : Bytes → ℕ) where
  unfoldable pub gameplay_step : ℕ → Action LobbyMembershipError (Unit {0})
  gameplay_step generation r =
      let (outcome, r') = publish_gameplay_tick hash generation r in
      after_tick generation outcome r'

  -- One step of a task that has been taken off the list.
  unfoldable pub run_task : Task → Room → Room
  run_task (send u) r = record r { updates = r.updates ++ (u ∷ []) }
  run_task (end_game reason) r = (finish_game reason r).1
  run_task (run_countdown generation remaining) r = (countdown_step generation remaining r).1
  run_task (run_gameplay generation) r = (gameplay_step generation r).1
  run_task (last_player_game_over generation) r = (game_over_step generation r).1

  unfoldable pub call : Call → Room → Room
  call (joins player_name) r = (join player_name r).1
  call (readies player_id session_id) r = (mark_ready player_id session_id r).1
  call (loads player_id session_id) r = (mark_loaded player_id session_id r).1
  call (requests_start player_id session_id) r = (request_manual_start player_id session_id r).1
  call (acts player_id session_id sequence action) r =
      (submit_action player_id session_id sequence action r).1
  call (keeps_alive player_id session_id sequence checksum) r =
      (submit_keepalive player_id session_id sequence checksum r).1
  call (chats player_id session_id message now) r =
      (publish_chat player_id session_id message now r).1
  call (leaves player_id session_id reason) r = (leave hash player_id session_id reason r).1

  -- A handler is called, or any task of the list runs: no order between them is assumed.
  pub data Step (r : Room) : Room → Type 0 where
    calls : (c : Call) → IsCall c → Step r (call c r)
    runs :
        (front back : List Task) (t : Task)
        → r.tasks ≡ front ++ (t ∷ back)
        → Step r (run_task t (record r { tasks = front ++ back }))

  pub data Reach (r : Room) : Room → Type 0 where
    here : Reach r r
    next : {s t : Room} → Reach r s → Step s t → Reach r t
