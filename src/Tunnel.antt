-- ===== src/Tunnel.antt =====
-- crates/strajer-protocol/src/game_tunnel.rs: the message that carries one W3GS frame between the
-- agent and the server, with a header of sixteen bytes. The children Agent and Server hold the two
-- directions.
pub mod Agent
pub mod Server
pub mod RoundTrip
use strajer.Common.{
  ℕ, ◌+◌, Bool, true, false, not, ◌||◌, List, [], ◌∷◌, ◌++◌, ltb, leb, ◌==◌, Result, ok, err, ◌>>=◌,
  ◌>>◌, reject_if, length, take, drop, is_empty, list_eq,
}
use strajer.Common.Bytes.{Bytes, to_le_bytes, from_le_bytes, at}

-- `*b"STRJ"`
abbrev pub game_tunnel_magic : Bytes
game_tunnel_magic = b'S' ∷ b'T' ∷ b'R' ∷ b'J' ∷ []

abbrev pub game_tunnel_header_bytes : ℕ
game_tunnel_header_bytes = 16

abbrev pub agent_w3gs_frame_kind : ℕ
agent_w3gs_frame_kind = 0x01

abbrev pub server_w3gs_frame_kind : ℕ
server_w3gs_frame_kind = 0x81

abbrev pub reserved_flags : ℕ
reserved_flags = 0

abbrev pub lobby_session_protocol_version : ℕ
lobby_session_protocol_version = 5

abbrev pub max_tunneled_w3gs_frame_bytes : ℕ
max_tunneled_w3gs_frame_bytes = 1460

abbrev pub max_game_tunnel_message_bytes : ℕ
max_game_tunnel_message_bytes = game_tunnel_header_bytes + max_tunneled_w3gs_frame_bytes

pub data GameTunnelError : Type 0 where
  invalid_message_length : (actual minimum maximum : ℕ) → GameTunnelError
  invalid_magic : GameTunnelError
  invalid_kind : (actual : ℕ) → GameTunnelError
  invalid_flags : (actual : ℕ) → GameTunnelError
  unsupported_protocol_version : (actual expected : ℕ) → GameTunnelError
  invalid_sequence : GameTunnelError
  invalid_w3gs_frame_length : (actual maximum : ℕ) → GameTunnelError

pub record DecodedMessage : Type 0 where
  pub sequence : ℕ
  pub frame : Bytes

unfoldable pub validate_sequence : ℕ → Result GameTunnelError (Unit {0})
validate_sequence sequence = reject_if (sequence == 0) invalid_sequence

unfoldable pub validate_w3gs_frame : Bytes → Result GameTunnelError (Unit {0})
validate_w3gs_frame frame =
    reject_if (is_empty frame || ltb max_tunneled_w3gs_frame_bytes (length frame))
      (invalid_w3gs_frame_length (length frame) max_tunneled_w3gs_frame_bytes)

unfoldable pub encode_message : ℕ → ℕ → Bytes → Bytes
encode_message kind sequence frame =
    game_tunnel_magic
    ++ (kind
        ∷ reserved_flags
        ∷ (to_le_bytes 2 lobby_session_protocol_version ++ (to_le_bytes 8 sequence ++ frame)))

unfoldable pub decode_message : Bytes → ℕ → Result GameTunnelError DecodedMessage
unfolding validate_sequence validate_w3gs_frame
decode_message bytes expected_kind = do
  reject_if
      (leb (length bytes) game_tunnel_header_bytes
        || ltb max_game_tunnel_message_bytes (length bytes))
      (invalid_message_length (length bytes) (game_tunnel_header_bytes + 1)
        max_game_tunnel_message_bytes)
  reject_if (not (list_eq (take 4 bytes) game_tunnel_magic)) invalid_magic
  reject_if (not (at bytes 4 == expected_kind)) (invalid_kind (at bytes 4))
  reject_if (not (at bytes 5 == reserved_flags)) (invalid_flags (at bytes 5))
  let protocol_version = from_le_bytes (at bytes 6 ∷ at bytes 7 ∷ [])
  reject_if (not (protocol_version == lobby_session_protocol_version))
      (unsupported_protocol_version protocol_version lobby_session_protocol_version)
  let sequence = from_le_bytes (take 8 (drop 8 bytes))
  validate_sequence sequence
  let frame = drop game_tunnel_header_bytes bytes
  validate_w3gs_frame frame
  ok (record { sequence = sequence; frame = frame })
