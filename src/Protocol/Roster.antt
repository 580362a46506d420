-- ===== src/Protocol/Roster.antt =====
-- `LobbyRoster::validate`, `LobbyRoster::player` and `LobbyPlayer::validate` of
-- crates/strajer-protocol/src/lib.rs. The hash sets of ids and slots seen so far are lists.
use strajer.Common.{
  ℕ, Bool, ◌||◌, List, [], ◌∷◌, Option, none, some, ltb, leb, ◌==◌, if◌then◌else◌, Result, ok, ◌>>◌,
  reject_if, any, length,
}
use strajer.Protocol.{
  LobbyPlayer, LobbyRoster, LobbySessionValidationError, max_warcraft_players,
  validate_lobby_player_name, invalid_roster_revision, invalid_roster_player_count,
  invalid_roster_player_id, invalid_roster_slot_index, duplicate_roster_player_id,
  duplicate_roster_slot_index,
}

unfoldable pub validate_player : ℕ → LobbyPlayer → Result LobbySessionValidationError (Unit {0})
validate_player maximum p = do
  reject_if (p.player_id == 0 || ltb maximum p.player_id) (invalid_roster_player_id p.player_id)
  reject_if (leb maximum p.slot_index) (invalid_roster_slot_index p.slot_index)
  validate_lobby_player_name p.name

abbrev pub contains : List ℕ → ℕ → Bool
contains seen n = any (λ x. x == n) seen

-- The loop over the players, with the ids and the slots of those already seen.
unfoldable pub validate_players :
    ℕ → List ℕ → List ℕ → List LobbyPlayer → Result LobbySessionValidationError (Unit {0})
validate_players maximum ids slots [] = ok tt
validate_players maximum ids slots (p ∷ rest) = do
  validate_player maximum p
  reject_if (contains ids p.player_id) (duplicate_roster_player_id p.player_id)
  reject_if (contains slots p.slot_index) (duplicate_roster_slot_index p.slot_index)
  validate_players maximum (p.player_id ∷ ids) (p.slot_index ∷ slots) rest

unfoldable pub validate : ℕ → LobbyRoster → Result LobbySessionValidationError (Unit {0})
validate maximum r = do
  reject_if (r.revision == 0) invalid_roster_revision
  reject_if (maximum == 0 || ltb max_warcraft_players maximum || ltb maximum (length r.players))
      (invalid_roster_player_count (length r.players) maximum)
  validate_players maximum [] [] r.players

unfoldable pub find_player : ℕ → List LobbyPlayer → Option LobbyPlayer
find_player player_id [] = none
find_player player_id (p ∷ rest) =
    if p.player_id == player_id then some p else find_player player_id rest

unfoldable pub player : LobbyRoster → ℕ → Option LobbyPlayer
unfolding find_player
player r player_id = find_player player_id r.players
