-- ===== src/Players/Layout.antt =====
-- What the packets about players look like on the wire, and when they can be sent.
use strajer.Common.{
  ℕ, ◌+◌, ◌≤◌, ◌<◌, ◌≡◌, ◌↔◌, [], ◌∷◌, ◌++◌, ok, length, length-append, any, false, arith, All,
  is_empty-false, ◌==◌,
}
use strajer.Common.Bytes.{
  Bytes, IsByte, u32_max, to_le_bytes, from_le_bytes-to_le_bytes, to_le_bytes-from_le_bytes,
}
use strajer.Frame.{Frame, FrameHeader}
use strajer.Frame.Shape.{framed, new-framed}
use strajer.Players.{
  SocketAddrV4, player_info_frame, validate_player, player_info_packet_id, player_join_counter,
  encode_ipv4_socket_address, max_classic_player_name_bytes, leave_request_reason,
  leave_request_packet_id,
}

-- A leave request is accepted exactly if it has the packet id and holds a 32-bit reason, little end
-- first, which is returned.
pub leave_request_reason_iff :
    (f : Frame) (reason : ℕ)
    → All IsByte f.payload
    → reason ≤ u32_max
    → (leave_request_reason f ≡ ok reason)
      ↔ ((f.packet_id ≡ leave_request_packet_id) × (f.payload ≡ to_le_bytes 4 reason))
unfolding leave_request_reason
leave_request_reason_iff f reason v small = go f.header f.payload v
  where
    go :
        (header : FrameHeader) (payload : Bytes)
        → All IsByte payload
        → (leave_request_reason (record { header = header; payload = payload }) ≡ ok reason)
          ↔ ((header.packet_id ≡ leave_request_packet_id) × (payload ≡ to_le_bytes 4 reason))
    go header (a ∷ b ∷ c ∷ d ∷ []) v = ground (
      arith,
      to_le_bytes-from_le_bytes (a ∷ b ∷ c ∷ d ∷ []) v,
      from_le_bytes-to_le_bytes 4 reason (omega arith),
    )
    go header _ v = ground arith

-- The payload that announces a player: the counter, the id, the name with its terminator, and both
-- addresses.
abbrev pub announcement : ℕ → Bytes → SocketAddrV4 → SocketAddrV4 → Bytes
announcement player_id player_name external internal =
    to_le_bytes 4 player_join_counter
    ++ (player_id
        ∷ (player_name
            ++ (0
                ∷ 2
                ∷ 0
                ∷ 0
                ∷ (encode_ipv4_socket_address external ++ encode_ipv4_socket_address internal))))

announcement-length :
    (player_id : ℕ) (player_name : Bytes) (external internal : SocketAddrV4)
    → length (announcement player_id player_name external internal) ≡ 41 + length player_name
unfolding encode_ipv4_socket_address
announcement-length player_id player_name external internal =
    let after : Bytes =
      0
      ∷ 2
      ∷ 0
      ∷ 0
      ∷ (encode_ipv4_socket_address external ++ encode_ipv4_socket_address internal) in
    omega (arith, length-append player_name after)

-- A player is announced exactly if its id is positive and its name has 1 to 15 bytes without NUL; the
-- frame then fits the wire.
pub player_info_frame_iff :
    (player_id : ℕ) (player_name : Bytes) (external internal : SocketAddrV4)
    → (player_info_frame player_id player_name external internal
        ≡ ok (framed player_info_packet_id (announcement player_id player_name external internal)))
      ↔ ((0 < player_id)
          × (0 < length player_name)
          × (length player_name ≤ max_classic_player_name_bytes)
          × (any (λ b. b == 0) player_name ≡ false))
unfolding player_info_frame validate_player
player_info_frame_iff player_id player_name external internal =
    let payload = announcement player_id player_name external internal in
    ground (
      arith,
      announcement-length player_id player_name external internal,
      new-framed player_info_packet_id payload,
      is_empty-false player_name,
    )
