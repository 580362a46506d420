-- ===== src/Maps.antt =====
-- crates/strajer-w3gs/src/map.rs: the packets by which a game checks its map and downloads it. A path is
-- given by its UTF-8 bytes. The checksum of crc32fast is the parameter `hash`.
pub mod Layout
use strajer.Common.{
  ℕ, ◌+◌, Bool, not, ◌||◌, List, [], ◌∷◌, ◌++◌, Option, ltb, ◌==◌, Result, ok, err, ◌>>=◌, ◌>>◌,
  reject_if, map_err, ok_or, checked_add, any, length, is_empty,
}
use strajer.Common.Bytes.{Bytes, u8_max, u32_max, to_le_bytes, from_le_bytes, at}
use strajer.Frame
use strajer.Frame.{Frame, FrameError}

abbrev pub map_check_packet_id : ℕ
map_check_packet_id = 0x3D

abbrev pub start_download_packet_id : ℕ
start_download_packet_id = 0x3F

abbrev pub map_size_packet_id : ℕ
map_size_packet_id = 0x42

abbrev pub map_part_packet_id : ℕ
map_part_packet_id = 0x43

abbrev pub map_part_ok_packet_id : ℕ
map_part_ok_packet_id = 0x44

abbrev pub map_part_data_bytes : ℕ
map_part_data_bytes = 1442

abbrev pub map_size_payload_length : ℕ
map_size_payload_length = 9

abbrev pub map_part_ok_payload_length : ℕ
map_part_ok_payload_length = 10

abbrev pub map_transfer_marker : ℕ
map_transfer_marker = 1

pub data MapCheckError : Type 0 where
  invalid_file_path : MapCheckError
  frame : FrameError → MapCheckError

pub data MapSizeError : Type 0 where
  unexpected_packet_id : (actual : ℕ) → MapSizeError
  invalid_payload_length : (actual expected : ℕ) → MapSizeError
  invalid_marker : ℕ → MapSizeError

pub data MapTransferError : Type 0 where
  invalid_player_id : ℕ → MapTransferError
  invalid_map_part_length : (actual maximum : ℕ) → MapTransferError
  map_part_range_overflow : MapTransferError
  unexpected_packet_id : (actual expected : ℕ) → MapTransferError
  invalid_ack_payload_length : (actual expected : ℕ) → MapTransferError
  invalid_marker : ℕ → MapTransferError
  frame : FrameError → MapTransferError

pub record MapCheck : Type 0 where
  pub file_path : Bytes
  pub file_size : ℕ
  pub file_crc32 : ℕ
  pub map_xoro : ℕ
  pub map_sha1 : Bytes

-- `MapCheck::new`
unfoldable pub new_map_check : Bytes → ℕ → ℕ → ℕ → Bytes → Result MapCheckError MapCheck
new_map_check file_path file_size file_crc32 map_xoro map_sha1 = do
  reject_if (is_empty file_path || any (λ b. b == 0) file_path) invalid_file_path
  ok (record {
    file_path = file_path;
    file_size = file_size;
    file_crc32 = file_crc32;
    map_xoro = map_xoro;
    map_sha1 = map_sha1;
  })

-- The payload of `MapCheck::frame`.
unfoldable pub map_check_payload : MapCheck → Bytes
map_check_payload c =
    to_le_bytes 4 1
    ++ (c.file_path
        ++ (0
            ∷ (to_le_bytes 4 c.file_size
                ++ (to_le_bytes 4 c.file_crc32 ++ (to_le_bytes 4 c.map_xoro ++ c.map_sha1)))))

unfoldable pub map_check_frame : MapCheck → Result MapCheckError Frame
unfolding map_check_payload
map_check_frame c =
    map_err MapCheckError.frame (Frame.new map_check_packet_id (map_check_payload c))

pub record MapSize : Type 0 where
  pub size_flag : ℕ
  pub map_size : ℕ

-- `MapSize::decode`
unfoldable pub decode_map_size : Frame → Result MapSizeError MapSize
decode_map_size f = do
  reject_if (not (f.packet_id == map_size_packet_id))
      (MapSizeError.unexpected_packet_id f.packet_id)
  reject_if (not (length f.payload == map_size_payload_length))
      (invalid_payload_length (length f.payload) map_size_payload_length)
  let p = f.payload
  let marker = from_le_bytes (at p 0 ∷ at p 1 ∷ at p 2 ∷ at p 3 ∷ [])
  reject_if (not (marker == 1)) (MapSizeError.invalid_marker marker)
  ok (record {
    size_flag = at p 4;
    map_size = from_le_bytes (at p 5 ∷ at p 6 ∷ at p 7 ∷ at p 8 ∷ []);
  })

abbrev pub has_map : MapSize → Bool
has_map m = m.size_flag == 1

abbrev pub continues_download : MapSize → Bool
continues_download m = m.size_flag == 3

unfoldable pub validate_player_id : ℕ → Result MapTransferError (Unit {0})
validate_player_id player_id =
    reject_if (player_id == 0 || player_id == u8_max) (invalid_player_id player_id)

unfoldable pub start_download_frame : ℕ → Result MapTransferError Frame
unfolding validate_player_id
start_download_frame from_player_id = do
  validate_player_id from_player_id
  map_err MapTransferError.frame (
      Frame.new start_download_packet_id
        (to_le_bytes 4 map_transfer_marker ++ (from_player_id ∷ [])))

module _ (hash : Bytes → ℕ) where
  -- The payload of `map_part_frame`.
  unfoldable pub map_part_payload : ℕ → ℕ → ℕ → Bytes → Bytes
  map_part_payload from_player_id to_player_id start bytes =
      to_player_id
      ∷ from_player_id
      ∷ (to_le_bytes 4 map_transfer_marker
          ++ (to_le_bytes 4 start ++ (to_le_bytes 4 (hash bytes) ++ bytes)))

  unfoldable pub map_part_frame : ℕ → ℕ → ℕ → Bytes → Result MapTransferError Frame
  unfolding validate_player_id map_part_payload
  map_part_frame from_player_id to_player_id start bytes = do
    validate_player_id from_player_id
    validate_player_id to_player_id
    reject_if (is_empty bytes || ltb map_part_data_bytes (length bytes))
        (invalid_map_part_length (length bytes) map_part_data_bytes)
    range_end ← ok_or (checked_add u32_max start (length bytes)) map_part_range_overflow
    map_err MapTransferError.frame
        (Frame.new map_part_packet_id (map_part_payload from_player_id to_player_id start bytes))

pub record MapPartAck : Type 0 where
  pub sender_player_id : ℕ
  pub receiver_player_id : ℕ
  pub map_size : ℕ

-- `MapPartAck::decode`
unfoldable pub decode_map_part_ack : Frame → Result MapTransferError MapPartAck
unfolding validate_player_id
decode_map_part_ack f = do
  reject_if (not (f.packet_id == map_part_ok_packet_id))
      (MapTransferError.unexpected_packet_id f.packet_id map_part_ok_packet_id)
  reject_if (not (length f.payload == map_part_ok_payload_length))
      (invalid_ack_payload_length (length f.payload) map_part_ok_payload_length)
  let p = f.payload
  let marker = from_le_bytes (at p 2 ∷ at p 3 ∷ at p 4 ∷ at p 5 ∷ [])
  reject_if (not (marker == map_transfer_marker)) (MapTransferError.invalid_marker marker)
  validate_player_id (at p 0)
  validate_player_id (at p 1)
  ok (record {
    sender_player_id = at p 0;
    receiver_player_id = at p 1;
    map_size = from_le_bytes (at p 6 ∷ at p 7 ∷ at p 8 ∷ at p 9 ∷ []);
  })
