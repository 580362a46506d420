-- ===== src/Players.antt =====
-- crates/strajer-w3gs/src/player.rs and net.rs: the packets that tell a game of the other players.
pub mod Layout
use strajer.Common.{
  ℕ, ◌+◌, not, ◌||◌, List, [], ◌∷◌, ◌++◌, ltb, ◌==◌, Result, ok, err, ◌>>=◌, ◌>>◌, reject_if,
  map_err, length, is_empty, any,
}
use strajer.Common.Bytes.{Bytes, to_le_bytes, from_le_bytes}
use strajer.Frame.{Frame, FrameError}
use strajer.Frame

abbrev pub player_info_packet_id : ℕ
player_info_packet_id = 0x06

abbrev pub player_leave_others_packet_id : ℕ
player_leave_others_packet_id = 0x07

abbrev pub game_loaded_others_packet_id : ℕ
game_loaded_others_packet_id = 0x08

abbrev pub game_over_packet_id : ℕ
game_over_packet_id = 0x14

abbrev pub leave_request_packet_id : ℕ
leave_request_packet_id = 0x21

abbrev pub game_loaded_self_packet_id : ℕ
game_loaded_self_packet_id = 0x23

abbrev pub max_classic_player_name_bytes : ℕ
max_classic_player_name_bytes = 15

abbrev pub player_join_counter : ℕ
player_join_counter = 1

abbrev pub player_leave_lobby_code : ℕ
player_leave_lobby_code = 13

pub data PlayerFrameError : Type 0 where
  unexpected_packet_id : (actual : ℕ) → PlayerFrameError
  invalid_game_loaded_self_payload : PlayerFrameError
  invalid_leave_request_payload : (actual : ℕ) → PlayerFrameError
  invalid_player_id : PlayerFrameError
  invalid_player_name_length : (actual maximum : ℕ) → PlayerFrameError
  frame : FrameError → PlayerFrameError

-- A `SocketAddrV4`: its four octets and its port.
pub record SocketAddrV4 : Type 0 where
  pub o0 : ℕ
  pub o1 : ℕ
  pub o2 : ℕ
  pub o3 : ℕ
  pub port : ℕ

-- `encode_ipv4_socket_address`, as the bytes that it appends.
unfoldable pub encode_ipv4_socket_address : SocketAddrV4 → Bytes
encode_ipv4_socket_address a =
    to_le_bytes 2 2
    ++ (to_le_bytes 2 a.port ++ (a.o0 ∷ a.o1 ∷ a.o2 ∷ a.o3 ∷ (0 ∷ 0 ∷ 0 ∷ 0 ∷ 0 ∷ 0 ∷ 0 ∷ 0 ∷ [])))

-- A player name is given by its bytes in UTF-8; a NUL character is the byte 0.
unfoldable pub validate_player : ℕ → Bytes → Result PlayerFrameError (Unit {0})
validate_player player_id player_name = do
  reject_if (player_id == 0) invalid_player_id
  reject_if
      (is_empty player_name
        || (ltb max_classic_player_name_bytes (length player_name)
            || any (λ b. b == 0) player_name))
      (invalid_player_name_length (length player_name) max_classic_player_name_bytes)

unfoldable pub player_info_frame :
    ℕ → Bytes → SocketAddrV4 → SocketAddrV4 → Result PlayerFrameError Frame
player_info_frame player_id player_name external_address internal_address = do
  validate_player player_id player_name
  map_err frame (
      Frame.new player_info_packet_id (
        to_le_bytes 4 player_join_counter
        ++ (player_id
            ∷ (player_name
                ++ (0
                    ∷ 2
                    ∷ 0
                    ∷ 0
                    ∷ (encode_ipv4_socket_address external_address
                        ++ encode_ipv4_socket_address internal_address))))))

unfoldable pub player_leave_others_frame_with_reason : ℕ → ℕ → Result PlayerFrameError Frame
player_leave_others_frame_with_reason player_id reason = do
  reject_if (player_id == 0) invalid_player_id
  map_err frame (Frame.new player_leave_others_packet_id (player_id ∷ to_le_bytes 4 reason))

unfoldable pub player_leave_others_frame : ℕ → Result PlayerFrameError Frame
player_leave_others_frame player_id =
    player_leave_others_frame_with_reason player_id player_leave_lobby_code

unfoldable pub leave_request_reason : Frame → Result PlayerFrameError ℕ
leave_request_reason f = do
  reject_if (not (f.packet_id == leave_request_packet_id)) (unexpected_packet_id f.packet_id)
  reject_if (not (length f.payload == 4)) (invalid_leave_request_payload (length f.payload))
  ok (from_le_bytes f.payload)

unfoldable pub game_over_frame : ℕ → Result PlayerFrameError Frame
game_over_frame player_id = do
  reject_if (player_id == 0) invalid_player_id
  map_err frame (Frame.new game_over_packet_id (player_id ∷ []))

unfoldable pub game_loaded_others_frame : ℕ → Result PlayerFrameError Frame
game_loaded_others_frame player_id = do
  reject_if (player_id == 0) invalid_player_id
  map_err frame (Frame.new game_loaded_others_packet_id (player_id ∷ []))

unfoldable pub validate_game_loaded_self : Frame → Result PlayerFrameError (Unit {0})
validate_game_loaded_self f = do
  reject_if (not (f.packet_id == game_loaded_self_packet_id)) (unexpected_packet_id f.packet_id)
  reject_if (not (is_empty f.payload)) invalid_game_loaded_self_payload
