-- ===== src/Room.antt =====
-- apps/strajer-server/src/lobby.rs: the room of a lobby. A lock guards its state, so each locked
-- section is one step here; what a handler does after it has released the lock, and the tasks
-- that it spawns, are entries of `tasks` that run as steps of their own (Room/Tasks). A broadcast is
-- the list of the updates sent so far, oldest first. Time passes only between steps: the
-- intervals and delays of the policies are not modelled, and a task may run at any moment.
pub mod Players
pub mod State
pub mod Consensus
pub mod Actions
pub mod Lobby
pub mod Play
pub mod Tasks
pub mod Rules
pub mod Outcomes
pub mod Timeslots
pub mod Rosters
pub mod Settings
pub mod Published
pub mod News
pub mod Registry
pub mod Invariant
use strajer.Common.{ℕ, ◌*◌, Bool, List, [], ◌∷◌, Option, none}
use strajer.Common.Bytes.{Bytes}
use strajer.Common.Texts.{Text}
use strajer.Protocol.{
  LobbyLeaveReason, GameEndReason, LobbyRoster, lobby_countdown_seconds,
  lobby_countdown_step_seconds,
}
use strajer.Game.{PlayerAction}

abbrev pub minimum_manual_start_players : ℕ
minimum_manual_start_players = 2

abbrev pub max_pending_game_actions : ℕ
max_pending_game_actions = 512

abbrev pub max_pending_game_action_bytes : ℕ
max_pending_game_action_bytes = 512 * 1452

abbrev pub max_pending_checksums_per_player : ℕ
max_pending_checksums_per_player = 64

-- 250 ms; an `Instant` is a number of nanoseconds.
abbrev pub lobby_chat_duplicate_window : ℕ
lobby_chat_duplicate_window = 250_000_000

pub record RecentChat : Type 0 where
  pub message : Text
  pub received_at : ℕ

pub record ConnectedPlayer : Type 0 where
  pub session_id : ℕ
  pub name : Text
  pub ready : Bool
  pub loaded : Bool
  pub last_chat : Option RecentChat
  pub last_game_sequence : ℕ
  pub checksums : List ℕ

pub record CountdownPolicy : Type 0 where
  pub initial_seconds : ℕ
  pub step_seconds : ℕ

pub record GameplayPolicy : Type 0 where
  pub tick_increment_ms : ℕ

abbrev pub default_countdown_policy : CountdownPolicy
default_countdown_policy = record {
  initial_seconds = lobby_countdown_seconds;
  step_seconds = lobby_countdown_step_seconds;
}

abbrev pub default_gameplay_policy : GameplayPolicy
default_gameplay_policy = record { tick_increment_ms = 100 }

-- `players` is the `BTreeMap`, in the order of its keys.
pub record LobbyRoomState : Type 0 where
  pub revision : ℕ
  pub next_session_id : ℕ
  pub players : List (ℕ × ConnectedPlayer)
  pub countdown_generation : ℕ
  pub countdown_active : Bool
  pub countdown_remaining_seconds : Option ℕ
  pub manual_start_requested : Bool
  pub started : Bool
  pub gameplay_active : Bool
  pub game_ended : Bool
  pub gameplay_generation : ℕ
  pub gameplay_sequence : ℕ
  pub pending_actions : List PlayerAction
  pub pending_action_bytes : ℕ

pub data LobbyUpdate : Type 0 where
  roster : LobbyRoster → LobbyUpdate
  countdown : (remaining_seconds : ℕ) → LobbyUpdate
  countdown_cancelled : LobbyUpdate
  chat : (from_player_id : ℕ) (message : Text) → LobbyUpdate
  start : LobbyUpdate
  player_loaded : (player_id : ℕ) → LobbyUpdate
  player_left : (player_id : ℕ) (reason : LobbyLeaveReason) (left : LobbyRoster) → LobbyUpdate
  game_frame : (sequence : ℕ) (frame : Bytes) → LobbyUpdate
  game_over : (reason : GameEndReason) → LobbyUpdate

-- What still has to run: a send or an `end_game` that a handler makes after it has released the lock,
-- and the tasks of `spawn_countdown` (with the seconds left), `spawn_gameplay` and
-- `spawn_last_player_game_over`.
pub data Task : Type 0 where
  send : LobbyUpdate → Task
  end_game : GameEndReason → Task
  run_countdown : (generation remaining_seconds : ℕ) → Task
  run_gameplay : (generation : ℕ) → Task
  last_player_game_over : (generation : ℕ) → Task

-- A room: what `LobbyRoom` holds, the updates sent, and the tasks that are still to run.
pub record Room : Type 0 where
  pub maximum_players : ℕ
  pub countdown_policy : CountdownPolicy
  pub gameplay_policy : GameplayPolicy
  pub state : LobbyRoomState
  pub updates : List LobbyUpdate
  pub tasks : List Task

pub data LobbyJoinError : Type 0 where
  full has_started countdown_running duplicate_player_name session_id_exhausted : LobbyJoinError

pub data LobbyMembershipError : Type 0 where
  unknown_session game_not_started game_not_running action_player_mismatch : LobbyMembershipError
  invalid_game_sequence : (expected actual : ℕ) → LobbyMembershipError
  game_sequence_exhausted action_queue_full checksum_queue_full : LobbyMembershipError
  gameplay_generation_exhausted gameplay_sequence_exhausted : LobbyMembershipError
  gameplay_frame_encoding countdown_generation_exhausted : LobbyMembershipError

pub data ManualStartOutcome : Type 0 where
  has_begun already_counting_down already_started not_enough_players : ManualStartOutcome
  players_not_ready : ManualStartOutcome

pub data LobbyPhase : Type 0 where
  waiting : LobbyPhase
  counting_down : (remaining_seconds : ℕ) → LobbyPhase
  loading playing ended : LobbyPhase

-- `LobbyRoom::new_with_policies`; `new` and `new_with_countdown_policy` give it the default policies.
unfoldable pub new_with_policies : ℕ → ℕ → CountdownPolicy → GameplayPolicy → Room
new_with_policies initial_revision maximum_players countdown_policy gameplay_policy = record {
  maximum_players = maximum_players;
  countdown_policy = countdown_policy;
  gameplay_policy = gameplay_policy;
  state = record {
    revision = initial_revision;
    next_session_id = 1;
    players = [];
    countdown_generation = 0;
    countdown_active = Bool.false;
    countdown_remaining_seconds = none;
    manual_start_requested = Bool.false;
    started = Bool.false;
    gameplay_active = Bool.false;
    game_ended = Bool.false;
    gameplay_generation = 0;
    gameplay_sequence = 0;
    pending_actions = [];
    pending_action_bytes = 0;
  };
  updates = [];
  tasks = [];
}

unfoldable pub new : ℕ → ℕ → Room
unfolding new_with_policies
new initial_revision maximum_players =
    new_with_policies initial_revision maximum_players default_countdown_policy
      default_gameplay_policy
