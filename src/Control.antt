-- ===== src/Control.antt =====
-- crates/strajer-w3gs/src/control.rs: chat in the lobby, and the packets without contents.
pub mod Chat
use strajer.Common.{
  ℕ, ◌+◌, ◌-◌, ◌%◌, ◌^◌, Bool, true, false, not, ◌&&◌, ◌||◌, List, [], ◌∷◌, ◌++◌, Option, none,
  some, ltb, leb, ◌==◌, Result, ok, err, ◌>>=◌, ◌>>◌, reject_if, map_err, ok_or, checked_add,
  length, is_empty, any, take, drop, get_or, get_elem?,
}
use strajer.Common.Bytes.{Bytes, u8_max, u64_max, to_le_bytes, at}
use strajer.Common.Texts.{Text, str_len, contains_nul, is_control}
use strajer.Common.Utf8.{from_utf8, as_bytes}
use strajer.Frame
use strajer.Frame.{Frame, FrameError}

abbrev pub ping_from_host_packet_id : ℕ
ping_from_host_packet_id = 0x01

abbrev pub countdown_start_packet_id : ℕ
countdown_start_packet_id = 0x0A

abbrev pub countdown_end_packet_id : ℕ
countdown_end_packet_id = 0x0B

abbrev pub chat_from_host_packet_id : ℕ
chat_from_host_packet_id = 0x0F

abbrev pub leave_ack_packet_id : ℕ
leave_ack_packet_id = 0x1B

abbrev pub chat_to_host_packet_id : ℕ
chat_to_host_packet_id = 0x28

abbrev pub max_chat_message_bytes : ℕ
max_chat_message_bytes = 254

abbrev pub lobby_chat_flag : ℕ
lobby_chat_flag = 0x10

pub data ControlFrameError : Type 0 where
  unexpected_packet_id : (actual : ℕ) → ControlFrameError
  malformed_lobby_chat : ControlFrameError
  invalid_sender_player_id : ControlFrameError
  invalid_recipients : ControlFrameError
  unsupported_chat_flag : ℕ → ControlFrameError
  invalid_message_encoding : ControlFrameError
  invalid_message : (actual maximum : ℕ) → ControlFrameError
  frame : FrameError → ControlFrameError

pub record LobbyChatToHost : Type 0 where
  pub from_player_id : ℕ
  pub recipient_player_ids : Bytes
  pub message : Text

-- The loop of `validate_chat_recipients`; `seen` lists the ids whose entry of the table is set.
abbrev pub check_recipients : Bytes → Bytes → Result ControlFrameError (Unit {0})
check_recipients seen [] = ok tt
check_recipients seen (player_id ∷ ids) =
    reject_if (any (λ k. k == player_id) seen) invalid_recipients
    >> check_recipients (player_id ∷ seen) ids

unfoldable pub validate_chat_recipients : Bytes → Result ControlFrameError (Unit {0})
validate_chat_recipients recipient_player_ids = do
  reject_if
      (is_empty recipient_player_ids
        || (ltb u8_max (length recipient_player_ids) || any (λ k. k == 0) recipient_player_ids))
      invalid_recipients
  check_recipients [] recipient_player_ids

unfoldable pub validate_chat_message : Text → Result ControlFrameError (Unit {0})
validate_chat_message message =
    reject_if
      (is_empty message
        || (ltb max_chat_message_bytes (str_len message)
            || (contains_nul message || any is_control message)))
      (invalid_message (str_len message) max_chat_message_bytes)

-- Whether bytes end in their only NUL.
abbrev pub is_terminated : Bytes → Bool
is_terminated [] = false
is_terminated (b ∷ []) = b == 0
is_terminated (b ∷ c ∷ bs) = not (b == 0) && is_terminated (c ∷ bs)

-- `LobbyChatToHost::decode` behind the count of recipients.
unfoldable pub decode_chat_payload : ℕ → Bytes → Result ControlFrameError LobbyChatToHost
unfolding validate_chat_recipients validate_chat_message
decode_chat_payload recipient_count p = do
  sender_index ← ok_or (checked_add u64_max 1 recipient_count) malformed_lobby_chat
  flag_index ← ok_or (checked_add u64_max sender_index 1) malformed_lobby_chat
  message_index ← ok_or (checked_add u64_max flag_index 1) malformed_lobby_chat
  reject_if (recipient_count == 0 || leb (length p) message_index) malformed_lobby_chat
  let recipient_player_ids = take (sender_index - 1) (drop 1 p)
  validate_chat_recipients recipient_player_ids
  let from_player_id = at p sender_index
  reject_if (from_player_id == 0) invalid_sender_player_id
  let flag = at p flag_index
  reject_if (not (flag == lobby_chat_flag)) (unsupported_chat_flag flag)
  let encoded_message = drop message_index p
  reject_if (not (is_terminated encoded_message)) malformed_lobby_chat
  message ←
      ok_or (from_utf8 (take (length encoded_message - 1) encoded_message)) invalid_message_encoding
  validate_chat_message message
  ok (record {
    from_player_id = from_player_id;
    recipient_player_ids = recipient_player_ids;
    message = message;
  })

-- `LobbyChatToHost::decode`
unfoldable pub decode_lobby_chat : Frame → Result ControlFrameError LobbyChatToHost
unfolding decode_chat_payload
decode_lobby_chat f = do
  reject_if (not (f.packet_id == chat_to_host_packet_id)) (unexpected_packet_id f.packet_id)
  recipient_count ← ok_or (get_elem? f.payload 0) malformed_lobby_chat
  decode_chat_payload recipient_count f.payload

unfoldable pub ping_from_host : ℕ → Result FrameError Frame
ping_from_host payload = Frame.new ping_from_host_packet_id (to_le_bytes 4 payload)

unfoldable pub leave_ack : Result FrameError Frame
leave_ack = Frame.new leave_ack_packet_id []

unfoldable pub countdown_start : Result FrameError Frame
countdown_start = Frame.new countdown_start_packet_id []

unfoldable pub countdown_end : Result FrameError Frame
countdown_end = Frame.new countdown_end_packet_id []

-- The payload of `chat_from_host`.
abbrev pub chat_payload : ℕ → Bytes → Text → Bytes
chat_payload from_player_id recipient_player_ids message =
    (length recipient_player_ids % 2 ^ 8)
    ∷ (recipient_player_ids ++ (from_player_id ∷ lobby_chat_flag ∷ (as_bytes message ++ (0 ∷ []))))

unfoldable pub chat_from_host : ℕ → Bytes → Text → Result ControlFrameError Frame
unfolding validate_chat_recipients validate_chat_message
chat_from_host from_player_id recipient_player_ids message = do
  reject_if (from_player_id == 0) invalid_sender_player_id
  validate_chat_recipients recipient_player_ids
  validate_chat_message message
  map_err frame (
      Frame.new chat_from_host_packet_id (chat_payload from_player_id recipient_player_ids message))
