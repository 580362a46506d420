-- ===== src/Topology.antt =====
-- `build_dota_slot_info` of apps/strajer-agent/src/main.rs: the table of slots that the agent shows the game.
pub mod Places
use strajer.Common.{
  ℕ, zero, suc, ◌+◌, ◌*◌, ◌/◌, ◌%◌, ◌^◌, Bool, not, ◌||◌, List, [], ◌∷◌, Option, none, some, ◌==◌,
  if◌then◌else◌, Result, ok, err, ◌>>=◌, ◌>>◌, reject_if, map_err, list_eq,
}
use strajer.Common.Texts.{Text, codes}
use strajer.Protocol.{LobbyPlayer, LobbyRoster, LobbySessionValidationError}
use strajer.Protocol.Roster
use strajer.Protocol.Catalog.{LobbyDescriptor, human_player_capacity}
use strajer.Slots.{
  SlotData, SlotInfo, SlotInfoError, open_slot, occupied_human, new_slot_info,
  custom_forces_fixed_player_settings,
}

abbrev pub dota_map_path : Text
dota_map_path = codes "Maps\\Download\\DotA_v6_89Q.w3x"

abbrev pub dota_total_player_slots : ℕ
dota_total_player_slots = 11

abbrev pub dota_human_player_slots : ℕ
dota_human_player_slots = 10

abbrev pub race_human : ℕ
race_human = 0x01

abbrev pub race_night_elf : ℕ
race_night_elf = 0x04

abbrev pub race_undead : ℕ
race_undead = 0x08

-- An entry of the topology.
pub record Place : Type 0 where
  pub team : ℕ
  pub color : ℕ
  pub race : ℕ

abbrev pub sentinel : ℕ → Place
sentinel color = record { team = 0; color = color; race = race_night_elf }

abbrev pub scourge : ℕ → Place
scourge color = record { team = 1; color = color; race = race_undead }

abbrev pub dota_slot_topology : List Place
dota_slot_topology =
    sentinel 1
    ∷ sentinel 2
    ∷ sentinel 3
    ∷ sentinel 4
    ∷ sentinel 5
    ∷ scourge 7
    ∷ scourge 8
    ∷ scourge 9
    ∷ scourge 10
    ∷ scourge 11
    ∷ record { team = 2; color = 12; race = race_human }
    ∷ []

pub data SlotsError : Type 0 where
  unknown_map : Text → SlotsError
  wrong_slots : (maximum : ℕ) → SlotsError
  invalid_roster : LobbySessionValidationError → SlotsError
  table : SlotInfoError → SlotsError

-- `roster.players.iter().find(..)`
abbrev pub occupant : ℕ → List LobbyPlayer → Option LobbyPlayer
occupant index [] = none
occupant index (p ∷ players) = if p.slot_index == index then some p else occupant index players

abbrev pub player_slot : Place → Option LobbyPlayer → SlotData
player_slot place none = open_slot place.team place.color place.race
player_slot place (some p) = occupied_human p.player_id place.team place.color place.race

-- The slot at an index of the topology.
unfoldable pub slot_at : LobbyDescriptor → List LobbyPlayer → ℕ → Place → SlotData
slot_at lobby players index place =
    if lobby.virtual_host.slot_index == index
    then occupied_human lobby.virtual_host.player_id place.team place.color place.race
    else player_slot place (occupant index players)

unfoldable pub build_slots : LobbyDescriptor → List LobbyPlayer → ℕ → List Place → List SlotData
unfolding slot_at
build_slots lobby players index [] = []
build_slots lobby players index (place ∷ places) =
    slot_at lobby players index place ∷ build_slots lobby players (suc index) places

-- The exclusive or of numbers of `w` bits.
abbrev pub xor : ℕ → ℕ → ℕ → ℕ
xor zero a b = 0
xor (suc w) a b = (a % 2 + b % 2) % 2 + 2 * xor w (a / 2) (b / 2)

abbrev pub lobby_random_seed : LobbyDescriptor → ℕ
lobby_random_seed lobby =
    xor 32 (xor 32 lobby.game_secret lobby.lan_game_id) (lobby.created_at_unix_seconds % 2 ^ 32)

unfoldable pub build_dota_slot_info : LobbyDescriptor → LobbyRoster → Result SlotsError SlotInfo
build_dota_slot_info lobby roster = do
  reject_if (not (list_eq lobby.map.path dota_map_path)) (unknown_map lobby.map.path)
  reject_if
      (not (lobby.players.max == dota_total_player_slots)
        || (not (human_player_capacity lobby == dota_human_player_slots)
            || (not (lobby.virtual_host.player_id == dota_total_player_slots)
                || not (lobby.virtual_host.slot_index == dota_human_player_slots))))
      (wrong_slots lobby.players.max)
  map_err invalid_roster (Roster.validate dota_human_player_slots roster)
  map_err table (
      new_slot_info (build_slots lobby roster.players 0 dota_slot_topology)
        (lobby_random_seed lobby) custom_forces_fixed_player_settings dota_total_player_slots)
