-- ===== src/Room/State.antt =====
-- The methods of `LobbyRoomState` and `ConnectedPlayer` of apps/strajer-server/src/lobby.rs.
use strajer.Common.{
  ℕ, ◌+◌, ◌-◌, Bool, false, not, ◌&&◌, List, [], ◌∷◌, Option, none, some, leb, ◌==◌, if◌then◌else◌,
  Result, ok, ◌>>=◌, ◌>>◌, reject_if, ok_or, checked_add, all, length, list_eq,
}
use strajer.Common.Bytes.{u64_max}
use strajer.Common.Texts.{Text}
use strajer.Protocol.{LobbyPlayer, LobbyRoster}
use strajer.Room.{
  ConnectedPlayer, RecentChat, LobbyRoomState, LobbyMembershipError, unknown_session,
  game_sequence_exhausted, invalid_game_sequence, minimum_manual_start_players,
  lobby_chat_duplicate_window,
}
use strajer.Room.Players.{get, modify, values}

-- `a.saturating_add(b)` of a `u64`.
abbrev pub saturating_add : ℕ → ℕ → ℕ
saturating_add a b = if leb (a + b) u64_max then a + b else u64_max

abbrev pub next_revision : ℕ → ℕ
next_revision current = saturating_add current 1

-- `slot_index: player_id - 1`, a `u8`: the ids of players start at 1.
abbrev pub roster_player : ℕ × ConnectedPlayer → LobbyPlayer
roster_player (player_id, p) = record {
  player_id = player_id;
  slot_index = player_id - 1;
  name = p.name;
}

abbrev pub roster_players : List (ℕ × ConnectedPlayer) → List LobbyPlayer
roster_players [] = []
roster_players (p ∷ m) = roster_player p ∷ roster_players m

unfoldable pub roster : LobbyRoomState → LobbyRoster
roster s = record { revision = s.revision; players = roster_players s.players }

abbrev pub all_ready : List (ℕ × ConnectedPlayer) → Bool
all_ready m = all (λ p. p.ready) (values m)

abbrev pub all_loaded : List (ℕ × ConnectedPlayer) → Bool
all_loaded m = all (λ p. p.loaded) (values m)

unfoldable pub can_start_automatic_countdown : LobbyRoomState → ℕ → Bool
can_start_automatic_countdown s maximum_players =
    not s.started
    && (not s.countdown_active && (length s.players == maximum_players && all_ready s.players))

unfoldable pub can_start_requested_countdown : LobbyRoomState → Bool
can_start_requested_countdown s =
    s.manual_start_requested
    && (not s.started
        && (not s.countdown_active
            && (leb minimum_manual_start_players (length s.players) && all_ready s.players)))

unfoldable pub countdown_matches : LobbyRoomState → ℕ → Bool
countdown_matches s generation =
    s.countdown_active
    && (s.countdown_generation == generation && (all_ready s.players && not s.started))

loaded_ids : List (ℕ × ConnectedPlayer) → List ℕ
loaded_ids [] = []
loaded_ids ((player_id, p) ∷ m) = if p.loaded then player_id ∷ loaded_ids m else loaded_ids m

unfoldable pub loaded_player_ids : LobbyRoomState → List ℕ
unfolding loaded_ids
loaded_player_ids s = loaded_ids s.players

-- `.filter(|player| player.session_id == session_id)` on what `get` found.
abbrev pub with_session : ℕ → Option ConnectedPlayer → Option ConnectedPlayer
with_session session_id none = none
with_session session_id (some p) = if p.session_id == session_id then some p else none

-- `.is_some_and(|player| player.session_id == session_id)`
abbrev pub session_matches : ℕ → Option ConnectedPlayer → Bool
session_matches session_id none = false
session_matches session_id (some p) = p.session_id == session_id

unfoldable pub require_active_session :
    LobbyRoomState → ℕ → ℕ → Result LobbyMembershipError (Unit {0})
require_active_session s player_id session_id =
    reject_if (not (session_matches session_id (get player_id s.players))) unknown_session

abbrev pub with_sequence : ℕ → ConnectedPlayer → ConnectedPlayer
with_sequence sequence p = record p { last_game_sequence = sequence }

-- The state after an accepted sequence number; on an error the state is left as it was.
unfoldable pub accept_game_sequence :
    LobbyRoomState → ℕ → ℕ → Result LobbyMembershipError LobbyRoomState
accept_game_sequence s player_id sequence = do
  player ← ok_or (get player_id s.players) unknown_session
  expected ← ok_or (checked_add u64_max player.last_game_sequence 1) game_sequence_exhausted
  reject_if (not (sequence == expected)) (invalid_game_sequence expected sequence)
  ok (record s { players = modify player_id (with_sequence sequence) s.players })

unfoldable pub reset_game : LobbyRoomState → LobbyRoomState
reset_game s = record s {
  countdown_active = false;
  countdown_remaining_seconds = none;
  manual_start_requested = false;
  started = false;
  gameplay_active = false;
  game_ended = false;
  gameplay_generation = saturating_add s.gameplay_generation 1;
  gameplay_sequence = 0;
  pending_actions = [];
  pending_action_bytes = 0;
}

-- `now.duration_since(..)` is 0 for an instant that lies ahead, as the subtraction here.
repeats : Text → ℕ → Option RecentChat → Bool
repeats message now none = false
repeats message now (some last) =
    list_eq last.message message && leb (now - last.received_at) lobby_chat_duplicate_window

unfoldable pub is_duplicate_chat : ConnectedPlayer → Text → ℕ → Bool
unfolding repeats
is_duplicate_chat p message now = repeats message now p.last_chat
