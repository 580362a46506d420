-- ===== src/Protocol/Catalog/Entries.antt =====
-- What an accepted catalog promises.
use strajer.Common.{
  ℕ, ◌+◌, ◌≤◌, ◌<◌, ◌≡◌, ◌≢◌, false, List, [], ◌∷◌, Option, ok, any, All, list_eq, list_eq_iff,
  ◌==◌, arith,
}
use strajer.Common.Bytes.{Bytes}
use strajer.Common.Texts.{Text}
use strajer.Protocol.{max_warcraft_players}
use strajer.Protocol.Catalog.{
  LobbyDescriptor, LobbyCatalog, validate_lobby, validate_lobbies, validate_catalog,
  catalog_schema_version, validate_virtual_host, validate_player_count, human_player_capacity,
}

-- No lobby of the list has this id or this LAN game id.
abbrev pub Fresh : LobbyDescriptor → List LobbyDescriptor → Type 0
Fresh l [] = Unit {0}
Fresh l (k ∷ rest) = (l.id ≢ k.id) × (l.lan_game_id ≢ k.lan_game_id) × Fresh l rest

abbrev pub DistinctLobbies : List LobbyDescriptor → Type 0
DistinctLobbies [] = Unit {0}
DistinctLobbies (l ∷ rest) = Fresh l rest × DistinctLobbies rest

abbrev Unseen : List Text → List ℕ → LobbyDescriptor → Type 0
Unseen ids games l =
    (any (λ id. list_eq id l.id) ids ≡ false) × (any (λ id. id == l.lan_game_id) games ≡ false)

Unseen-Fresh :
    (l : LobbyDescriptor) (ids : List Text) (games : List ℕ) (rest : List LobbyDescriptor)
    → All (Unseen (l.id ∷ ids) (l.lan_game_id ∷ games)) rest
    → Fresh l rest × All (Unseen ids games) rest
Unseen-Fresh l ids games [] h = (tt, tt)
Unseen-Fresh l ids games (k ∷ rest) h =
    let (fresh, unseen) = Unseen-Fresh l ids games rest h.1 in
    ground (arith, fresh, unseen, list_eq_iff l.id k.id)

module _ (decode_hex : Text → Option Bytes) where
  abbrev pub IsValid : LobbyDescriptor → Type 0
  IsValid l = validate_lobby decode_hex l ≡ ok tt

  accepted :
      (l : LobbyDescriptor) (ids : List Text) (games : List ℕ) (rest : List LobbyDescriptor)
      → validate_lobbies decode_hex ids games (l ∷ rest) ≡ ok tt
      → IsValid l
        × Unseen ids games l
        × (validate_lobbies decode_hex (l.id ∷ ids) (l.lan_game_id ∷ games) rest ≡ ok tt)
  unfolding validate_lobbies
  accepted l ids games rest h = ground arith

  validate_lobbies_sound :
      (ids : List Text) (games : List ℕ) (ls : List LobbyDescriptor)
      → validate_lobbies decode_hex ids games ls ≡ ok tt
      → All IsValid ls × All (Unseen ids games) ls × DistinctLobbies ls
  validate_lobbies_sound ids games [] h = (tt, tt, tt)
  validate_lobbies_sound ids games (l ∷ rest) h =
      let (valid, unseen, more) = accepted l ids games rest h in
      let (all_valid, later, distinct) =
        validate_lobbies_sound (l.id ∷ ids) (l.lan_game_id ∷ games) rest more in
      let (fresh, still) = Unseen-Fresh l ids games rest later in
      ((valid, all_valid), (unseen, still), (fresh, distinct))

  -- An accepted catalog has the supported schema, only lobbies that `LobbyDescriptor::validate` accepts,
  -- and no two of them share an id or a LAN game id.
  pub validate_catalog_sound :
      (c : LobbyCatalog)
      → validate_catalog decode_hex c ≡ ok tt
      → (c.schema_version ≡ catalog_schema_version)
        × All IsValid c.lobbies
        × DistinctLobbies c.lobbies
  unfolding validate_catalog
  validate_catalog_sound c h =
      let (valid, unseen, distinct) = validate_lobbies_sound [] [] c.lobbies (ground arith) in
      (ground arith, valid, distinct)

  -- A valid lobby leaves 1 to 23 places to players, and its virtual host has the id and the slot
  -- behind theirs.
  pub validate_lobby-host :
      (l : LobbyDescriptor)
      → IsValid l
      → (1 ≤ human_player_capacity l)
        × (human_player_capacity l < max_warcraft_players)
        × (l.virtual_host.player_id ≡ human_player_capacity l + 1)
        × (l.virtual_host.slot_index ≡ human_player_capacity l)
        × (0 < l.revision)
  unfolding validate_lobby validate_player_count validate_virtual_host human_player_capacity
  validate_lobby-host l h = ground arith
