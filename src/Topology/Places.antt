-- ===== src/Topology/Places.antt =====
-- The players of a roster in the table that `build_dota_slot_info` of apps/strajer-agent/src/main.rs builds.
use strajer.Common.{
  ℕ, suc, ◌+◌, ◌≤◌, ◌<◌, ◌≡◌, ◌≢◌, refl, Bool, true, false, ◌&&◌, List, [], ◌∷◌, some, ok, ◌==◌,
  length, any, arith, list_eq, list_eq_iff,
}
use strajer.Protocol.{LobbyPlayer, LobbyRoster}
use strajer.Protocol.Roster
use strajer.Protocol.Roster.{validate_players, validate_player, find_player, contains}
use strajer.Protocol.Catalog.{LobbyDescriptor, human_player_capacity}
use strajer.Frame.{Frame}
use strajer.Players.{SocketAddrV4}
use strajer.Slots.{
  SlotInfo, SlotData, is_occupied, occupied_human, new_slot_info, assigned_slot_exists, join_frame,
  custom_forces_fixed_player_settings,
}
use strajer.Slots.Tables.{join_frame_iff}
use strajer.Topology.{
  Place, occupant, slot_at, build_slots, build_dota_slot_info, dota_slot_topology, dota_map_path,
  lobby_random_seed,
}

-- A player of the roster has a place, and is the first one found there.
pub record Placed (maximum k : ℕ) (slots : List ℕ) (players : List LobbyPlayer) (p : LobbyPlayer)
    : Type 0 where
  pub named : p.player_id ≡ k
  pub place : p.slot_index < maximum
  pub new_slot : contains slots p.slot_index ≡ false
  pub found : occupant p.slot_index players ≡ some p

players-Placed :
    (maximum k : ℕ) (ids slots : List ℕ) (players : List LobbyPlayer) (p : LobbyPlayer)
    → validate_players maximum ids slots players ≡ ok tt
    → find_player k players ≡ some p
    → Placed maximum k slots players p
unfolding validate_players validate_player find_player
players-Placed maximum k ids slots [] p valid found = absurd (cc found)
players-Placed maximum k ids slots (q ∷ rest) p valid found =
    step (q.player_id == k) refl
      λ v e. players-Placed maximum k (q.player_id ∷ ids) (q.slot_index ∷ slots) rest p v e
  where
    step :
        (same : Bool)
        → (q.player_id == k) ≡ same
        → (validate_players maximum (q.player_id ∷ ids) (q.slot_index ∷ slots) rest ≡ ok tt
            → find_player k rest ≡ some p
            → Placed maximum k (q.slot_index ∷ slots) rest p)
        → Placed maximum k slots (q ∷ rest) p
    step true same later = record {
      named = ground arith;
      place = ground arith;
      new_slot = ground arith;
      found = ground arith;
    }
    step false other later =
        let v = later (ground arith) (ground arith) in
        record {
          named = v.named;
          place = v.place;
          new_slot = ground (arith, v.new_slot);
          found = ground (arith, v.new_slot, v.found);
        }

build_slots-length :
    (lobby : LobbyDescriptor) (players : List LobbyPlayer) (index : ℕ) (places : List Place)
    → length (build_slots lobby players index places) ≡ length places
unfolding build_slots
build_slots-length lobby players index [] = refl
build_slots-length lobby players index (place ∷ places) =
    omega (arith, build_slots-length lobby players (suc index) places)

build_slots-occupied :
    (lobby : LobbyDescriptor) (players : List LobbyPlayer) (p : LobbyPlayer) (index : ℕ)
    (places : List Place)
    → occupant p.slot_index players ≡ some p
    → lobby.virtual_host.slot_index ≢ p.slot_index
    → index ≤ p.slot_index
    → p.slot_index < index + length places
    → any
        (λ s. s.player_id == p.player_id && is_occupied s.status)
        (build_slots lobby players index places)
      ≡ true
unfolding build_slots slot_at occupied_human
build_slots-occupied lobby players p index [] found free low high = absurd (omega arith)
build_slots-occupied lobby players p index (place ∷ places) found free low high =
    step (index == p.slot_index) refl
      λ low' high'. build_slots-occupied lobby players p (suc index) places found free low' high'
  where
    step :
        (same : Bool)
        → (index == p.slot_index) ≡ same
        → (suc index ≤ p.slot_index
            → p.slot_index < suc index + length places
            → any
                (λ s. s.player_id == p.player_id && is_occupied s.status)
                (build_slots lobby players (suc index) places)
              ≡ true)
        → any
            (λ s. s.player_id == p.player_id && is_occupied s.status)
            (build_slots lobby players index (place ∷ places))
          ≡ true
    step true same later =
        let here : index ≡ p.slot_index = ground arith in rw here (ground (arith, found))
    step false other later =
        let above : suc index ≤ p.slot_index = ground arith in
        let within : p.slot_index < suc index + length places = ground arith in
        ground (arith, later above within)

table_of :
    (slots : List SlotData) (seed : ℕ)
    → length slots ≡ 11
    → new_slot_info slots seed custom_forces_fixed_player_settings 11
      ≡ ok (record {
        slots = slots;
        random_seed = seed;
        layout = custom_forces_fixed_player_settings;
        player_slots = 11;
      })
unfolding new_slot_info
table_of [] seed size = absurd (omega (arith, size))
table_of (s ∷ slots) seed size = ground arith

abbrev table_for : LobbyDescriptor → LobbyRoster → SlotInfo
table_for lobby roster = record {
  slots = build_slots lobby roster.players 0 dota_slot_topology;
  random_seed = lobby_random_seed lobby;
  layout = custom_forces_fixed_player_settings;
  player_slots = 11;
}

-- A lobby of this map, with ten places for players and the last for the host.
pub record IsDota (lobby : LobbyDescriptor) : Type 0 where
  pub path : lobby.map.path ≡ dota_map_path
  pub places : lobby.players.max ≡ 11
  pub host : lobby.virtual_host.player_id ≡ 11
  pub host_slot : lobby.virtual_host.slot_index ≡ 10

table_built :
    (lobby : LobbyDescriptor) (roster : LobbyRoster)
    → IsDota lobby
    → Roster.validate 10 roster ≡ ok tt
    → build_dota_slot_info lobby roster ≡ ok (table_for lobby roster)
unfolding build_dota_slot_info human_player_capacity
table_built lobby roster v valid =
    let same_path : list_eq lobby.map.path dota_map_path ≡ true =
      (list_eq_iff lobby.map.path dota_map_path).1 v.path in
    let built =
      table_of (build_slots lobby roster.players 0 dota_slot_topology) (lobby_random_seed lobby)
        (build_slots-length lobby roster.players 0 dota_slot_topology) in
    rw (built, same_path, v.places, v.host, v.host_slot, valid) refl

roster-Placed :
    (roster : LobbyRoster) (k : ℕ) (p : LobbyPlayer)
    → Roster.validate 10 roster ≡ ok tt
    → Roster.player roster k ≡ some p
    → Placed 10 k [] roster.players p
unfolding Roster.validate Roster.player
roster-Placed roster k p valid found =
    players-Placed 10 k [] [] roster.players p (ground arith) found

-- For a lobby of this map and every valid roster of it, the agent builds a table of 11 slots, and it has
-- the packet about the join for every player of the roster but number 0.
pub build_dota_slot_info_lem :
    (lobby : LobbyDescriptor) (roster : LobbyRoster) (k : ℕ) (p : LobbyPlayer)
    (address : SocketAddrV4)
    → IsDota lobby
    → Roster.validate 10 roster ≡ ok tt
    → 0 < k
    → Roster.player roster k ≡ some p
    → (i : SlotInfo) × (build_dota_slot_info lobby roster ≡ ok i)
      × (length i.slots ≡ 11)
      × (f : Frame) × (join_frame i k address ≡ ok f)
build_dota_slot_info_lem lobby roster k p address v valid positive found =
    let w = roster-Placed roster k p valid found in
    let size = build_slots-length lobby roster.players 0 dota_slot_topology in
    let apart : lobby.virtual_host.slot_index ≢ p.slot_index =
      λ e. omega (arith, w.place, v.host_slot) in
    let seated =
      build_slots-occupied lobby roster.players p 0 dota_slot_topology w.found apart (omega arith)
        (omega (arith, w.place)) in
    let slot : assigned_slot_exists (table_for lobby roster) k ≡ true = rw w.named at seated in
    (
      table_for lobby roster,
      table_built lobby roster v valid,
      size,
      _,
      (join_frame_iff (build_slots lobby roster.players 0 dota_slot_topology)
            (lobby_random_seed lobby) custom_forces_fixed_player_settings 11
            (table_for lobby roster) k address
            (table_of (build_slots lobby roster.players 0 dota_slot_topology)
              (lobby_random_seed lobby) size)).1
          (positive, slot),
    )
