-- ===== src/Tests/Topologies.antt =====
-- The slots of a lobby with a player on each side.
use strajer.Common.{◌≡◌, refl, [], ◌∷◌, some, ok, length, arith}
use strajer.Frame.{Frame}
use strajer.Protocol.{LobbyPlayer, LobbyRoster, validate_lobby_player_name}
use strajer.Protocol.Roster
use strajer.Protocol.Roster.{validate_players, validate_player, find_player}
use strajer.Protocol.Catalog.{LobbyDescriptor}
use strajer.Players.{SocketAddrV4}
use strajer.Slots.{SlotInfo, join_frame}
use strajer.Topology.{build_dota_slot_info, dota_map_path}
use strajer.Topology.Places.{build_dota_slot_info_lem}
use strajer.Tests.Catalogs.{duel_lobby}

abbrev dota_lobby : LobbyDescriptor
dota_lobby = record duel_lobby {
  map = record {
    path = dota_map_path;
    file_size = 100;
    file_crc32 = 1;
    sha1_hex = b'0' ∷ [];
    checksum = 2;
    width = 64;
    height = 64;
  };
  players = record { current = 2; max = 11 };
  virtual_host = record { player_id = 11; slot_index = 10; name = b'h' ∷ [] };
}

abbrev sven : LobbyPlayer
sven = record { player_id = 1; slot_index = 0; name = b's' ∷ [] }

abbrev lina : LobbyPlayer
lina = record { player_id = 2; slot_index = 6; name = b'l' ∷ [] }

abbrev sides : LobbyRoster
sides = record { revision = 3; players = sven ∷ lina ∷ [] }

abbrev nowhere : SocketAddrV4
nowhere = record { o0 = 0; o1 = 0; o2 = 0; o3 = 0; port = 0 }

sides-valid : Roster.validate 10 sides ≡ ok tt
unfolding Roster.validate validate_players validate_player validate_lobby_player_name
sides-valid = refl

sides-lina : Roster.player sides 2 ≡ some lina
unfolding Roster.player find_player
sides-lina = refl

build_dota_slot_info_lem_example :
    (i : SlotInfo) × (build_dota_slot_info dota_lobby sides ≡ ok i)
    × (length i.slots ≡ 11)
    × (f : Frame) × (join_frame i 2 nowhere ≡ ok f)
build_dota_slot_info_lem_example =
    build_dota_slot_info_lem dota_lobby sides 2 lina nowhere
      (record { path = refl; places = refl; host = refl; host_slot = refl }) sides-valid
      (omega arith) sides-lina
