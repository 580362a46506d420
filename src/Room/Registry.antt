-- ===== src/Room/Registry.antt =====
-- `LobbyRegistry` of apps/strajer-server/src/lobby.rs: a room for each lobby of the catalog.
use strajer.Common.{
  ℕ, ◌-◌, ◌≤◌, ◌<◌, ◌≡◌, refl, List, [], ◌∷◌, ◌++◌, Option, none, some, ok, list_eq, list_eq_iff,
  arith, if◌then◌else◌,
}
use strajer.Common.Bytes.{Bytes}
use strajer.Common.Texts.{Text}
use strajer.Protocol.Catalog.{
  LobbyDescriptor, LobbyCatalog, human_player_capacity, validate_catalog,
}
use strajer.Protocol.Catalog.Entries.{
  DistinctLobbies, Fresh, IsValid, validate_catalog_sound, validate_lobby-host,
}
use strajer.Room.{Room, ConnectedPlayer, new}
use strajer.Room.Players.{get, All-get, get-Above}
use strajer.Room.Invariant.{IsRoom}
use strajer.Room.Invariant.Tables.{IsEntry}

-- `collect` into a hash map keeps the last room of an id; the map is its lookup function.
unfoldable pub collect_rooms : List LobbyDescriptor → Text → Option Room
collect_rooms [] lobby_id = none
collect_rooms (l ∷ rest) lobby_id = elim (collect_rooms rest lobby_id) [
  | some r ↦ some r
  | none ↦ if list_eq l.id lobby_id then some (new l.revision (human_player_capacity l)) else none
]

-- `LobbyRegistry::from_catalog`, and `room` of the result.
unfoldable pub from_catalog : LobbyCatalog → Text → Option Room
from_catalog c lobby_id = collect_rooms c.lobbies lobby_id

not_collected :
    (l : LobbyDescriptor) (rest : List LobbyDescriptor)
    → Fresh l rest
    → collect_rooms rest l.id ≡ none
unfolding collect_rooms
not_collected l [] h = refl
not_collected l (k ∷ rest) h = ground (arith, not_collected l rest h.2, list_eq_iff k.id l.id)

collect_rooms_lem :
    (front back : List LobbyDescriptor) (l : LobbyDescriptor)
    → DistinctLobbies (front ++ (l ∷ back))
    → collect_rooms (front ++ (l ∷ back)) l.id ≡ some (new l.revision (human_player_capacity l))
unfolding collect_rooms
collect_rooms_lem [] back l h = ground (arith, not_collected l back h.0, list_eq_iff l.id l.id)
collect_rooms_lem (k ∷ front) back l h = ground (arith, collect_rooms_lem front back l h.1)

-- Every lobby of an accepted catalog has a room of its own under its id, new, at the lobby's revision and
-- with a place for every slot but the virtual host's.
pub from_catalog_lem :
    (decode_hex : Text → Option Bytes) (c : LobbyCatalog) (front back : List LobbyDescriptor)
    (l : LobbyDescriptor)
    → validate_catalog decode_hex c ≡ ok tt
    → c.lobbies ≡ front ++ (l ∷ back)
    → from_catalog c l.id ≡ some (new l.revision (human_player_capacity l))
unfolding from_catalog
from_catalog_lem decode_hex c front back l h e =
    let distinct = (validate_catalog_sound decode_hex c h).2 in
    rw e (collect_rooms_lem front back l (rw e at distinct))

-- In a room that satisfies the invariant and has the places of a valid lobby, no player has the id or the
-- slot of the lobby's virtual host: both lie below the host's.
pub player-host :
    (decode_hex : Text → Option Bytes) (l : LobbyDescriptor) (r : Room) (k : ℕ)
    (p : ConnectedPlayer)
    → IsValid decode_hex l
    → IsRoom r
    → r.maximum_players ≡ human_player_capacity l
    → get k r.state.players ≡ some p
    → (1 ≤ k) × (k < l.virtual_host.player_id) × (k - 1 < l.virtual_host.slot_index)
player-host decode_hex l r k p valid v places found =
    let (few, positive, host, slot, _) = validate_lobby-host decode_hex l valid in
    let (low, _, _) = All-get (IsEntry _ _) k r.state.players p found v.table.entries in
    ground (arith, get-Above 0 k r.state.players v.table.above)
