-- ===== src/Tests/Catalogs.antt =====
-- A catalog of one lobby, and the room of it.
use strajer.Common.{
  ◌-◌, ◌%◌, ◌≤◌, ◌<◌, ◌≡◌, ◌↔◌, refl, true, [], ◌∷◌, Option, some, ok, all, length,
}
use strajer.Common.Bytes.{Bytes}
use strajer.Common.Texts.{Text}
use strajer.Protocol.{validate_lobby_player_name}
use strajer.Protocol.Catalog.{
  LobbyDescriptor, LobbyCatalog, validate_catalog, validate_lobbies, validate_lobby, is_component,
  validate_lobby_id, validate_game_name, validate_warcraft, validate_warcraft_version,
  count_components, validate_map, sha1_bytes, validate_player_count, validate_virtual_host,
  human_player_capacity, default_warcraft_product,
}
use strajer.Protocol.Catalog.Versions.{components, validate_warcraft_version_iff}
use strajer.Protocol.Catalog.Entries.{IsValid}
use strajer.Room.{new}
use strajer.Room.Registry.{from_catalog, from_catalog_lem, player-host}
use strajer.Tests.Rooms.{playing_room, playing_room-IsRoom, playing_bob}

-- A stand-in for the decoding of hexadecimal digits that takes every text as it is.
abbrev decode_text : Text → Option Bytes
decode_text t = some t

abbrev version : Text
version = b'2' ∷ b'.' ∷ b'0' ∷ b'.' ∷ b'4' ∷ b'.' ∷ b'2' ∷ b'3' ∷ []

abbrev pub duel_lobby : LobbyDescriptor
duel_lobby = record {
  id = b'd' ∷ b'u' ∷ b'e' ∷ b'l' ∷ [];
  revision = 1;
  lan_game_id = 7;
  game_secret = 99;
  name = b'D' ∷ b'u' ∷ b'e' ∷ b'l' ∷ [];
  created_at_unix_seconds = 0;
  warcraft = record { version = version; product = default_warcraft_product };
  map = record {
    path = b'm' ∷ [];
    file_size = 100;
    file_crc32 = 1;
    sha1_hex = b'0' ∷ [];
    checksum = 2;
    width = 64;
    height = 64;
  };
  players = record { current = 1; max = 3 };
  virtual_host = record { player_id = 3; slot_index = 2; name = b'h' ∷ [] };
}

abbrev catalog : LobbyCatalog
catalog = record { schema_version = 3; generated_at_unix_ms = 0; lobbies = duel_lobby ∷ [] }

duel_lobby-IsValid : IsValid decode_text duel_lobby
unfolding validate_lobby validate_lobby_id validate_game_name validate_warcraft
    validate_warcraft_version count_components validate_map sha1_bytes validate_player_count
    validate_virtual_host validate_lobby_player_name
duel_lobby-IsValid = refl

catalog_valid : validate_catalog decode_text catalog ≡ ok tt
unfolding validate_catalog validate_lobbies validate_lobby validate_lobby_id validate_game_name
    validate_warcraft validate_warcraft_version count_components validate_map sha1_bytes
    validate_player_count validate_virtual_host validate_lobby_player_name
catalog_valid = refl

validate_warcraft_version_iff_example :
    (validate_warcraft_version version ≡ ok tt)
    ↔ ((all is_component (components version) ≡ true) × (length (components version) % 256 ≡ 4))
validate_warcraft_version_iff_example = validate_warcraft_version_iff version

from_catalog_lem_example :
    from_catalog catalog duel_lobby.id ≡ some (new 1 (human_player_capacity duel_lobby))
from_catalog_lem_example = from_catalog_lem decode_text catalog [] [] duel_lobby catalog_valid refl

duel_places : 2 ≡ human_player_capacity duel_lobby
unfolding human_player_capacity
duel_places = refl

player-host_example : (1 ≤ 2) × (2 < 3) × (2 - 1 < 2)
player-host_example =
    player-host decode_text duel_lobby playing_room 2 playing_bob duel_lobby-IsValid
      playing_room-IsRoom duel_places refl
