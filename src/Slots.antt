-- ===== src/Slots.antt =====
-- crates/strajer-w3gs/src/slot.rs: the table of slots that a lobby shows.
pub mod Tables
use strajer.Common.{
  ℕ, ◌+◌, ◌*◌, ◌%◌, ◌^◌, Bool, true, false, ◌&&◌, ◌||◌, not, List, [], ◌∷◌, ◌++◌, ltb, ◌==◌, Result,
  ok, err, ◌>>=◌, ◌>>◌, reject_if, map_err, length, is_empty, any, if◌then◌else◌,
}
use strajer.Common.Bytes.{Bytes, to_le_bytes, u8_max}
use strajer.Frame.{Frame, FrameError}
use strajer.Frame
use strajer.Players.{SocketAddrV4, encode_ipv4_socket_address}

abbrev pub slot_info_join_packet_id : ℕ
slot_info_join_packet_id = 0x04

abbrev pub slot_info_packet_id : ℕ
slot_info_packet_id = 0x09

abbrev pub max_slot_count : ℕ
max_slot_count = 24

abbrev pub slot_data_length : ℕ
slot_data_length = 9

abbrev pub slot_info_fixed_length : ℕ
slot_info_fixed_length = 7

pub data SlotStatus : Type 0 where
  opened closed occupied : SlotStatus

-- `self.status as u8`
abbrev pub status_code : SlotStatus → ℕ
status_code opened = 0
status_code closed = 1
status_code occupied = 2

pub data SlotLayout : Type 0 where
  melee custom_forces fixed_player_settings custom_forces_fixed_player_settings : SlotLayout

-- `self.layout as u8`
abbrev pub layout_code : SlotLayout → ℕ
layout_code melee = 0
layout_code custom_forces = 1
layout_code fixed_player_settings = 2
layout_code custom_forces_fixed_player_settings = 3

pub record SlotData : Type 0 where
  pub player_id : ℕ
  pub download_status : ℕ
  pub status : SlotStatus
  pub computer : Bool
  pub team : ℕ
  pub color : ℕ
  pub race : ℕ
  pub computer_type : ℕ
  pub handicap : ℕ

-- `SlotData::open`
unfoldable pub open_slot : ℕ → ℕ → ℕ → SlotData
open_slot team color race = record {
  player_id = 0;
  download_status = u8_max;
  status = opened;
  computer = false;
  team = team;
  color = color;
  race = race;
  computer_type = 1;
  handicap = 100;
}

unfoldable pub occupied_human : ℕ → ℕ → ℕ → ℕ → SlotData
occupied_human player_id team color race = record {
  player_id = player_id;
  download_status = 100;
  status = occupied;
  computer = false;
  team = team;
  color = color;
  race = race;
  computer_type = 1;
  handicap = 100;
}

-- `encode_into`, as the bytes that it appends.
unfoldable pub encode_slot : SlotData → Bytes
encode_slot s =
    s.player_id
    ∷ s.download_status
    ∷ status_code s.status
    ∷ (if s.computer then 1 else 0)
    ∷ s.team
    ∷ s.color
    ∷ s.race
    ∷ s.computer_type
    ∷ s.handicap
    ∷ []

pub record SlotInfo : Type 0 where
  pub slots : List SlotData
  pub random_seed : ℕ
  pub layout : SlotLayout
  pub player_slots : ℕ

pub data SlotInfoError : Type 0 where
  empty_slots : SlotInfoError
  too_many_slots : (actual maximum : ℕ) → SlotInfoError
  too_many_player_slots : (actual slot_count : ℕ) → SlotInfoError
  invalid_assigned_player_id : ℕ → SlotInfoError
  frame : FrameError → SlotInfoError

-- `SlotInfo::new`
unfoldable pub new_slot_info : List SlotData → ℕ → SlotLayout → ℕ → Result SlotInfoError SlotInfo
new_slot_info slots random_seed layout player_slots = do
  reject_if (is_empty slots) empty_slots
  reject_if (ltb max_slot_count (length slots)) (too_many_slots (length slots) max_slot_count)
  reject_if (ltb (length slots) player_slots) (too_many_player_slots player_slots (length slots))
  ok (record {
    slots = slots;
    random_seed = random_seed;
    layout = layout;
    player_slots = player_slots;
  })

unfoldable pub encode_slots : List SlotData → Bytes
encode_slots [] = []
encode_slots (s ∷ slots) = encode_slot s ++ encode_slots slots

unfoldable pub encode_payload : SlotInfo → Bytes
encode_payload i =
    let declared = slot_info_fixed_length + slot_data_length * length i.slots in
    to_le_bytes 2 (declared % 2 ^ 16)
    ++ ((length i.slots % 2 ^ 8)
        ∷ (encode_slots i.slots
            ++ (to_le_bytes 4 i.random_seed ++ (layout_code i.layout ∷ i.player_slots ∷ []))))

abbrev pub is_occupied : SlotStatus → Bool
is_occupied opened = false
is_occupied closed = false
is_occupied occupied = true

unfoldable pub slot_info_frame : SlotInfo → Result SlotInfoError Frame
slot_info_frame i = map_err frame (Frame.new slot_info_packet_id (encode_payload i))

abbrev pub assigned_slot_exists : SlotInfo → ℕ → Bool
assigned_slot_exists i player_id =
    any (λ s. s.player_id == player_id && is_occupied s.status) i.slots

unfoldable pub join_frame : SlotInfo → ℕ → SocketAddrV4 → Result SlotInfoError Frame
join_frame i assigned_player_id external_address = do
  reject_if (assigned_player_id == 0 || not (assigned_slot_exists i assigned_player_id))
      (invalid_assigned_player_id assigned_player_id)
  map_err frame (
      Frame.new slot_info_join_packet_id
        (encode_payload i ++ (assigned_player_id ∷ encode_ipv4_socket_address external_address)))
