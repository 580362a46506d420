-- ===== src/Protocol/Catalog.antt =====
-- The catalog of lobbies of crates/strajer-protocol/src/lib.rs and its validation. `decode_hex` stands for
-- `hex::decode_to_slice` of the crate hex on a slice of 20 bytes.
pub mod Versions
pub mod Entries
use strajer.Common.{
  ℕ, ◌+◌, ◌-◌, ◌%◌, ◌^◌, Bool, true, false, not, ◌&&◌, ◌||◌, List, [], ◌∷◌, Option, none, some, ltb,
  leb, ◌==◌, if◌then◌else◌, Result, ok, err, ◌>>=◌, ◌>>◌, reject_if, ok_or, map_err, any, all,
  length, is_empty, list_eq, is_err,
}
use strajer.Common.Bytes.{Bytes}
use strajer.Common.Texts.{Text, str_len, contains_nul}
use strajer.Protocol.{LobbyPlayer, max_warcraft_players, validate_lobby_player_name}

abbrev pub catalog_schema_version : ℕ
catalog_schema_version = 3

-- `"W3XP"`
abbrev pub default_warcraft_product : Text
default_warcraft_product = b'W' ∷ b'3' ∷ b'X' ∷ b'P' ∷ []

abbrev pub max_game_name_bytes : ℕ
max_game_name_bytes = 31

-- `i32::MAX`
abbrev pub i32_max : ℕ
i32_max = 2_147_483_647

pub record WarcraftDescriptor : Type 0 where
  pub version : Text
  pub product : Text

pub record MapDescriptor : Type 0 where
  pub path : Text
  pub file_size : ℕ
  pub file_crc32 : ℕ
  pub sha1_hex : Text
  pub checksum : ℕ
  pub width : ℕ
  pub height : ℕ

pub record PlayerCount : Type 0 where
  pub current : ℕ
  pub max : ℕ

pub record LobbyDescriptor : Type 0 where
  pub id : Text
  pub revision : ℕ
  pub lan_game_id : ℕ
  pub game_secret : ℕ
  pub name : Text
  pub created_at_unix_seconds : ℕ
  pub warcraft : WarcraftDescriptor
  pub map : MapDescriptor
  pub players : PlayerCount
  pub virtual_host : LobbyPlayer

pub record LobbyCatalog : Type 0 where
  pub schema_version : ℕ
  pub generated_at_unix_ms : ℕ
  pub lobbies : List LobbyDescriptor

pub data ValidationError : Type 0 where
  unsupported_schema_version : (actual expected : ℕ) → ValidationError
  invalid_lobby_id : ValidationError
  duplicate_lobby_id : Text → ValidationError
  invalid_lan_game_id : ℕ → ValidationError
  duplicate_lan_game_id : ℕ → ValidationError
  invalid_revision : ℕ → ValidationError
  invalid_game_name : ValidationError
  unsupported_warcraft_product : Text → ValidationError
  invalid_warcraft_version invalid_map_path invalid_map_file_size invalid_map_sha1 : ValidationError
  invalid_player_count : (current max : ℕ) → ValidationError
  invalid_virtual_host : ValidationError

-- `u8::is_ascii_graphic`. A character outside ASCII has no such byte in its encoding.
abbrev pub is_printable_ascii : ℕ → Bool
is_printable_ascii byte = leb 0x21 byte && leb byte 0x7E

abbrev pub is_ascii_digit : ℕ → Bool
is_ascii_digit byte = leb 0x30 byte && leb byte 0x39

unfoldable pub validate_lobby_id : Text → Result ValidationError (Unit {0})
validate_lobby_id id =
    reject_if (is_empty id || (ltb 64 (str_len id) || not (all is_printable_ascii id)))
      invalid_lobby_id

unfoldable pub validate_game_name : Text → Result ValidationError (Unit {0})
validate_game_name name =
    reject_if (is_empty name || (ltb max_game_name_bytes (str_len name) || contains_nul name))
      invalid_game_name

-- `str::split('.')`: the characters up to the first dot, and the components behind it.
abbrev pub split_dots : Text → Text × List Text
split_dots [] = ([], [])
split_dots (c ∷ cs) =
    let (component, rest) = split_dots cs in
    if c == b'.' then ([], component ∷ rest) else (c ∷ component, rest)

abbrev pub is_component : Text → Bool
is_component component = not (is_empty component) && all is_ascii_digit component

-- The loop over the components. The count is a `u8`, which wraps around in a release build.
unfoldable pub count_components : ℕ → List Text → Result ValidationError ℕ
count_components component_count [] = ok component_count
count_components component_count (component ∷ rest) = do
  reject_if (not (is_component component)) invalid_warcraft_version
  count_components ((component_count + 1) % 2 ^ 8) rest

unfoldable pub validate_warcraft_version : Text → Result ValidationError (Unit {0})
validate_warcraft_version version = do
  let (first, rest) = split_dots version
  component_count ← count_components 0 (first ∷ rest)
  reject_if (not (component_count == 4)) invalid_warcraft_version

-- `WarcraftDescriptor::validate`
unfoldable pub validate_warcraft : WarcraftDescriptor → Result ValidationError (Unit {0})
validate_warcraft w = do
  reject_if (not (list_eq w.product default_warcraft_product))
      (unsupported_warcraft_product w.product)
  validate_warcraft_version w.version

-- `PlayerCount::validate`
unfoldable pub validate_player_count : PlayerCount → Result ValidationError (Unit {0})
validate_player_count p =
    reject_if (p.max == 0 || (ltb max_warcraft_players p.max || ltb p.max p.current))
      (invalid_player_count p.current p.max)

-- `max` is at least 2 where the last slot is computed, since `||` stops at the first true operand.
unfoldable pub validate_virtual_host : LobbyDescriptor → Result ValidationError (Unit {0})
validate_virtual_host l =
    reject_if
      (l.players.current == 0
        || (ltb l.players.max 2
            || (not (l.virtual_host.player_id == l.players.max)
                || (not (l.virtual_host.slot_index == l.players.max - 1)
                    || is_err (validate_lobby_player_name l.virtual_host.name)))))
      invalid_virtual_host

-- `players.max.saturating_sub(1)`
unfoldable pub human_player_capacity : LobbyDescriptor → ℕ
human_player_capacity l = l.players.max - 1

module _ (decode_hex : Text → Option Bytes) where
  unfoldable pub sha1_bytes : MapDescriptor → Result ValidationError Bytes
  sha1_bytes m = ok_or (decode_hex m.sha1_hex) invalid_map_sha1

  -- `MapDescriptor::validate`
  unfoldable pub validate_map : MapDescriptor → Result ValidationError (Unit {0})
  validate_map m = do
    reject_if (is_empty m.path || contains_nul m.path) invalid_map_path
    reject_if (m.file_size == 0) invalid_map_file_size
    sha1 ← sha1_bytes m
    ok tt

  -- `LobbyDescriptor::validate`
  unfoldable pub validate_lobby : LobbyDescriptor → Result ValidationError (Unit {0})
  validate_lobby l = do
    validate_lobby_id l.id
    validate_game_name l.name
    reject_if (l.lan_game_id == 0 || ltb i32_max l.lan_game_id) (invalid_lan_game_id l.lan_game_id)
    reject_if (l.revision == 0 || ltb i32_max l.revision) (invalid_revision l.revision)
    validate_warcraft l.warcraft
    validate_map l.map
    validate_player_count l.players
    validate_virtual_host l

  -- The loop over the lobbies, with the ids and the game ids of those already seen.
  unfoldable pub validate_lobbies :
      List Text → List ℕ → List LobbyDescriptor → Result ValidationError (Unit {0})
  validate_lobbies lobby_ids game_ids [] = ok tt
  validate_lobbies lobby_ids game_ids (l ∷ rest) = do
    validate_lobby l
    reject_if (any (λ id. list_eq id l.id) lobby_ids) (duplicate_lobby_id l.id)
    reject_if (any (λ id. id == l.lan_game_id) game_ids) (duplicate_lan_game_id l.lan_game_id)
    validate_lobbies (l.id ∷ lobby_ids) (l.lan_game_id ∷ game_ids) rest

  -- `LobbyCatalog::validate`
  unfoldable pub validate_catalog : LobbyCatalog → Result ValidationError (Unit {0})
  validate_catalog c = do
    reject_if (not (c.schema_version == catalog_schema_version))
        (unsupported_schema_version c.schema_version catalog_schema_version)
    validate_lobbies [] [] c.lobbies
