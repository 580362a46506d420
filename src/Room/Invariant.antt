-- ===== src/Room/Invariant.antt =====
-- What holds of a room between any two steps (apps/strajer-server/src/lobby.rs).
pub mod Tables
pub mod Lobby
pub mod Reports
pub mod Play
pub mod Steps
pub mod Departure
pub mod Reachable
use strajer.Common.{
  ℕ, ◌+◌, ◌≤◌, ◌<◌, ◌≡◌, ◌≢◌, refl, Bool, true, false, not, ◌&&◌, ◌||◌, List, [], ◌∷◌, Option, none,
  some, All, length, is_empty, arith,
}
use strajer.Room.{
  Room, ConnectedPlayer, LobbyRoomState, max_pending_game_actions, max_pending_game_action_bytes,
  max_pending_checksums_per_player, new_with_policies, CountdownPolicy, GameplayPolicy,
}
use strajer.Room.Players.{Above}
use strajer.Room.State.{all_ready, all_loaded}
use strajer.Game.{PlayerAction}
use strajer.Game.Groups.{IsAction, records_length}
use Tables.{Entry, IsEntry, Distinct}

-- Ids 1 to the maximum in rising order, sessions and names that no two players share, sessions below
-- the next one, and bounded checksum queues.
pub record IsTable (maximum next_session_id : ℕ) (m : List Entry) : Type 0 where
  pub above : Above 0 m
  pub entries : All (IsEntry maximum next_session_id) m
  pub distinct : Distinct m

abbrev pub is_some : Option ℕ → Bool
is_some none = false
is_some (some n) = true

-- The phases: waiting, countdown, loading, playing, ended.
pub record IsPhase (s : LobbyRoomState) : Type 0 where
  pub countdown_before : (s.countdown_active && s.started) ≡ false
  pub play_started : (s.gameplay_active && not s.started) ≡ false
  pub end_started : (s.game_ended && not s.started) ≡ false
  pub play_open : (s.gameplay_active && s.game_ended) ≡ false
  pub remaining : is_some s.countdown_remaining_seconds ≡ s.countdown_active
  pub occupied : (is_empty s.players && (s.started || s.countdown_active)) ≡ false
  pub readied : ((s.countdown_active || s.started) && not (all_ready s.players)) ≡ false
  pub all_in : (s.gameplay_active && not (all_loaded s.players)) ≡ false

-- The queue of actions: counted, bounded, valid, and empty while no game runs.
pub record IsPending (active : Bool) (actions : List PlayerAction) (bytes : ℕ) : Type 0 where
  pub counted : bytes ≡ records_length actions
  pub few : length actions ≤ max_pending_game_actions
  pub small : bytes ≤ max_pending_game_action_bytes
  pub valid : All IsAction actions
  pub idle : (not active && not (is_empty actions)) ≡ false

pub record IsRoom (r : Room) : Type 0 where
  pub table : IsTable r.maximum_players r.state.next_session_id r.state.players
  pub phase : IsPhase r.state
  pub pending :
      IsPending r.state.gameplay_active r.state.pending_actions r.state.pending_action_bytes

pub new_with_policies-IsRoom :
    (revision maximum : ℕ) (c : CountdownPolicy) (g : GameplayPolicy)
    → IsRoom (new_with_policies revision maximum c g)
unfolding new_with_policies
new_with_policies-IsRoom revision maximum c g = record {
  table = record { above = tt; entries = tt; distinct = tt };
  phase = ground arith;
  pending = ground arith;
}
