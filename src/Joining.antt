-- ===== src/Joining.antt =====
-- crates/strajer-w3gs/src/req_join.rs: the request with which a player of the game enters a lobby.
pub mod Layout
use strajer.Common.{
  ℕ, zero, suc, ◌+◌, not, List, [], ◌∷◌, Option, none, some, ltb, ◌==◌, if◌then◌else◌, Result, ok,
  err, ◌>>=◌, ◌>>◌, reject_if, ok_or, length, take, drop,
}
use strajer.Common.Bytes.{Bytes, from_le_bytes, at}
use strajer.Frame.{Frame}

abbrev pub req_join_packet_id : ℕ
req_join_packet_id = 0x1E

abbrev pub max_player_name_bytes : ℕ
max_player_name_bytes = 255

abbrev pub fixed_prefix_length : ℕ
fixed_prefix_length = 15

abbrev pub minimum_payload_length : ℕ
minimum_payload_length = fixed_prefix_length + 1

pub record ReqJoin : Type 0 where
  pub host_counter : ℕ
  pub entry_key : ℕ
  pub unknown : ℕ
  pub listen_port : ℕ
  pub join_counter : ℕ
  pub player_name : Bytes
  pub tail : Bytes

pub data ReqJoinError : Type 0 where
  unexpected_packet_id : (actual : ℕ) → ReqJoinError
  payload_too_short : (actual minimum : ℕ) → ReqJoinError
  missing_player_name_terminator empty_player_name : ReqJoinError
  player_name_too_long : (actual maximum : ℕ) → ReqJoinError

unfoldable pub read_u16_le : Bytes → ℕ → ℕ
read_u16_le bytes offset = from_le_bytes (at bytes offset ∷ at bytes (offset + 1) ∷ [])

unfoldable pub read_u32_le : Bytes → ℕ → ℕ
read_u32_le bytes offset =
    from_le_bytes
      (at bytes offset ∷ at bytes (offset + 1) ∷ at bytes (offset + 2) ∷ at bytes (offset + 3) ∷ [])

-- `.iter().position(is_nul)`
unfoldable pub position_nul : Bytes → Option ℕ
position_nul [] = none
position_nul (b ∷ bs) =
    if b == 0 then some 0 else elim (position_nul bs) [ none ↦ none | some n ↦ some (suc n) ]

unfoldable pub decode : Frame → Result ReqJoinError ReqJoin
decode f = do
  reject_if (not (f.packet_id == req_join_packet_id)) (unexpected_packet_id f.packet_id)
  let payload = f.payload
  reject_if (ltb (length payload) minimum_payload_length)
      (payload_too_short (length payload) minimum_payload_length)
  let player_name_and_tail = drop fixed_prefix_length payload
  player_name_length ← ok_or (position_nul player_name_and_tail) missing_player_name_terminator
  reject_if (player_name_length == 0) empty_player_name
  reject_if (ltb max_player_name_bytes player_name_length)
      (player_name_too_long player_name_length max_player_name_bytes)
  let tail_offset = fixed_prefix_length + player_name_length + 1
  ok (record {
    host_counter = read_u32_le payload 0;
    entry_key = read_u32_le payload 4;
    unknown = at payload 8;
    listen_port = read_u16_le payload 9;
    join_counter = read_u32_le payload 11;
    player_name = take player_name_length player_name_and_tail;
    tail = drop tail_offset payload;
  })
