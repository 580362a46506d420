-- ===== src/Maps/Layout.antt =====
-- The layouts of the map packets of crates/strajer-w3gs/src/map.rs.
use strajer.Common.{ℕ, ◌+◌, ◌≤◌, ◌<◌, ◌≡◌, [], ◌∷◌, ◌++◌, ok, length, arith, length-append}
use strajer.Common.Bytes.{Bytes, u32_max, to_le_bytes, from_le_bytes-to_le_bytes}
use strajer.Frame.{Frame}
use strajer.Frame.Shape.{framed, new-framed}
use strajer.Maps.{
  MapSize, decode_map_size, MapPartAck, decode_map_part_ack, map_part_frame, map_part_payload,
  map_part_data_bytes,
}

-- A status as the game sends it.
abbrev pub map_size_frame : MapSize → Frame
map_size_frame m = framed 0x42 (to_le_bytes 4 1 ++ (m.size_flag ∷ to_le_bytes 4 m.map_size))

-- An acknowledgement as the game sends it.
abbrev pub map_part_ack_frame : MapPartAck → Frame
map_part_ack_frame a =
    framed 0x44
      (a.sender_player_id ∷ a.receiver_player_id ∷ (to_le_bytes 4 1 ++ to_le_bytes 4 a.map_size))

-- An id that the map packets admit.
abbrev pub IsPeer : ℕ → Type 0
IsPeer k = (0 < k) × (k < 255)

-- The map statuses and the acknowledgements that a game sends are read back.
pub decode-map_frames :
    (m : MapSize) (a : MapPartAck)
    → m.map_size ≤ u32_max
    → IsPeer a.sender_player_id
    → IsPeer a.receiver_player_id
    → a.map_size ≤ u32_max
    → (decode_map_size (map_size_frame m) ≡ ok m)
      × (decode_map_part_ack (map_part_ack_frame a) ≡ ok a)
unfolding decode_map_size decode_map_part_ack
decode-map_frames m a hm hs hr ha = (
  ground (arith, from_le_bytes-to_le_bytes 4 m.map_size (omega arith)),
  ground (arith, from_le_bytes-to_le_bytes 4 a.map_size (omega arith)),
)

-- The frame of a part of 1 to 1,442 bytes between two players of the game, behind an offset that the
-- four bytes for it can hold with the part.
pub map_part_frame_lem :
    (hash : Bytes → ℕ) (from_player_id to_player_id start : ℕ) (bytes : Bytes)
    → IsPeer from_player_id
    → IsPeer to_player_id
    → 0 < length bytes
    → length bytes ≤ map_part_data_bytes
    → start + length bytes ≤ u32_max
    → map_part_frame hash from_player_id to_player_id start bytes
      ≡ ok (framed 0x43 (map_part_payload hash from_player_id to_player_id start bytes))
unfolding map_part_frame map_part_payload
map_part_frame_lem hash k j start [] hk hj some_bytes few fits = absurd (omega arith)
map_part_frame_lem hash k j start (b ∷ bs) hk hj some_bytes few fits = ground (
  arith,
  new-framed 0x43 (map_part_payload hash k j start (b ∷ bs))
      (omega (arith, length-append (to_le_bytes 4 (hash (b ∷ bs))) (b ∷ bs))),
)
