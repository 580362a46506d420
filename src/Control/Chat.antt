-- ===== src/Control/Chat.antt =====
-- Lobby chat of crates/strajer-w3gs/src/control.rs: the layout of its packets, and what the protocol of
-- crates/strajer-protocol/src/lib.rs makes of its messages.
use strajer.Common.{
  ℕ, zero, suc, take, drop, ◌+◌, ◌-◌, ◌%◌, ◌≤◌, ◌<◌, ◌≡◌, ◌∙◌, refl, sym, ap, true, false, [], ◌∷◌,
  ◌++◌, some, ok, length, All, arith, length-append, take-length_append, drop-length_append,
  drop-drop, any, ◌==◌,
}
use strajer.Common.Bytes.{Bytes, at}
use strajer.Common.Texts.{Text, str_len, contains_nul}
use strajer.Common.Utf8.{
  as_bytes, from_utf8, from_utf8-as_bytes, length-as_bytes, IsScalar, as_bytes-without_nul,
}
use strajer.Frame.{Frame}
use strajer.Frame.Shape.{framed, new-framed}
use strajer.Protocol.{validate_lobby_chat_message}
use strajer.Protocol.Messages.{AgentLobbyMessage, new_chat}
use strajer.Tunnel.{lobby_session_protocol_version}
use strajer.Control.{
  LobbyChatToHost, decode_lobby_chat, decode_chat_payload, chat_from_host, chat_payload,
  validate_chat_recipients, validate_chat_message, is_terminated,
}

is_terminated-append :
    (bs : Bytes) → any (λ b. b == 0) bs ≡ false → is_terminated (bs ++ (0 ∷ [])) ≡ true
is_terminated-append [] h = refl
is_terminated-append (b ∷ []) h = ground arith
is_terminated-append (b ∷ c ∷ bs) h = ground (arith, is_terminated-append (c ∷ bs))

-- What is allowed to stand in a packet of lobby chat.
pub record IsChat (chat : LobbyChatToHost) : Type 0 where
  pub sender : 0 < chat.from_player_id
  pub recipients : validate_chat_recipients chat.recipient_player_ids ≡ ok tt
  pub message : validate_chat_message chat.message ≡ ok tt

pub decode_lobby_chat-IsChat :
    (f : Frame) (chat : LobbyChatToHost) → decode_lobby_chat f ≡ ok chat → IsChat chat
unfolding decode_lobby_chat decode_chat_payload
decode_lobby_chat-IsChat f chat e = record {
  sender = ground arith;
  recipients = ground arith;
  message = ground arith;
}

-- The protocol sends every message of a packet that the decoder accepts.
pub decode_lobby_chat-new_chat :
    (f : Frame) (chat : LobbyChatToHost)
    → decode_lobby_chat f ≡ ok chat
    → new_chat chat.message
      ≡ ok (AgentLobbyMessage.chat lobby_session_protocol_version chat.message)
unfolding new_chat validate_lobby_chat_message validate_chat_message
decode_lobby_chat-new_chat f chat e =
    let v = decode_lobby_chat-IsChat f chat e in ground (arith, v.message)

at-drop : (i j : ℕ) (bs : Bytes) → at bs (i + j) ≡ at (drop i bs) j
at-drop zero j bs = ap (at bs) (omega arith)
at-drop (suc i) j [] = refl
at-drop (suc i) j (b ∷ bs) = ap (at (b ∷ bs)) next ∙ at-drop i j bs
  where
    next : suc i + j ≡ suc (i + j)
    next = omega arith

-- The parts of a payload, where the decoder looks for them.
decode_chat_payload-parts :
    (count : ℕ) (p rest : Bytes) (chat : LobbyChatToHost)
    → count ≤ 255
    → 0 < count
    → count + 3 < length p
    → take ((1 + count) - 1) (drop 1 p) ≡ chat.recipient_player_ids
    → at p (1 + count) ≡ chat.from_player_id
    → at p ((1 + count) + 1) ≡ 0x10
    → drop (((1 + count) + 1) + 1) p ≡ rest
    → is_terminated rest ≡ true
    → from_utf8 (take (length rest - 1) rest) ≡ some chat.message
    → IsChat chat
    → decode_chat_payload count p ≡ ok chat
unfolding decode_chat_payload
decode_chat_payload-parts count p rest chat few positive long recipients sender flag message
      terminated text v =
    ground (arith, v.sender, v.recipients, v.message)

-- The payload of a chat behind its recipients.
abbrev behind : LobbyChatToHost → Bytes
behind chat = chat.from_player_id ∷ 0x10 ∷ (as_bytes chat.message ++ (0 ∷ []))

abbrev payload_of : LobbyChatToHost → Bytes
payload_of chat = chat_payload chat.from_player_id chat.recipient_player_ids chat.message

recipients_bounds :
    (ids : Bytes) → validate_chat_recipients ids ≡ ok tt → (0 < length ids) × (length ids ≤ 255)
unfolding validate_chat_recipients
recipients_bounds [] e = absurd (cc e)
recipients_bounds (k ∷ ids) e = ground arith

message_bounds :
    (message : Text)
    → validate_chat_message message ≡ ok tt
    → (str_len message ≤ 254) × (contains_nul message ≡ false)
unfolding validate_chat_message
message_bounds message e = ground arith

chat_from_host-framed :
    (chat : LobbyChatToHost)
    → IsChat chat
    → length (payload_of chat) ≤ 600
    → chat_from_host chat.from_player_id chat.recipient_player_ids chat.message
      ≡ ok (framed 0x0F (payload_of chat))
unfolding chat_from_host validate_chat_recipients validate_chat_message
chat_from_host-framed chat v small =
    ground
      (arith, v.sender, v.recipients, v.message, new-framed 0x0F (payload_of chat) (omega arith))

-- Whatever the game may be told of a chat it can tell as well: `chat_from_host` builds the packet of a
-- valid chat, and `LobbyChatToHost::decode` reads the same payload of a game back.
pub decode-chat :
    (chat : LobbyChatToHost)
    → IsChat chat
    → All IsScalar chat.message
    → (chat_from_host chat.from_player_id chat.recipient_player_ids chat.message
        ≡ ok (framed 0x0F (payload_of chat)))
      × (decode_lobby_chat (framed 0x28 (payload_of chat)) ≡ ok chat)
unfolding decode_lobby_chat chat_from_host
decode-chat chat v scalars =
    let ids : Bytes = chat.recipient_player_ids in
    let n : ℕ = length ids in
    let p : Bytes = payload_of chat in
    let (positive, few) = recipients_bounds ids v.recipients in
    let (short, no_nul) = message_bounds chat.message v.message in
    let tail : drop n (ids ++ behind chat) ≡ behind chat = drop-length_append ids (behind chat) in
    let head : take n (ids ++ behind chat) ≡ ids = take-length_append ids (behind chat) in
    let size : length p ≡ n + (length (as_bytes chat.message) + 4) =
      omega
        (arith, length-append ids (behind chat), length-append (as_bytes chat.message) (0 ∷ [])) in
    let long : length (as_bytes chat.message) ≡ str_len chat.message =
      length-as_bytes chat.message in
    let from_first : drop (1 + n) p ≡ behind chat = sym (drop-drop 1 n p) ∙ tail in
    let rest : Bytes = as_bytes chat.message ++ (0 ∷ []) in
    let whole : length rest ≡ length (as_bytes chat.message) + 1 =
      length-append (as_bytes chat.message) (0 ∷ []) in
    let second : drop ((1 + n) + 1) p ≡ 0x10 ∷ rest =
      sym (drop-drop (1 + n) 1 p) ∙ ap (drop 1) from_first in
    let third : drop (((1 + n) + 1) + 1) p ≡ rest =
      sym (drop-drop ((1 + n) + 1) 1 p) ∙ ap (drop 1) second in
    let all_but_nul : length rest - 1 ≡ length (as_bytes chat.message) = omega arith in
    let text : take (length rest - 1) rest ≡ as_bytes chat.message =
      rw all_but_nul (take-length_append (as_bytes chat.message) (0 ∷ [])) in
    let count : (1 + n) - 1 ≡ n = omega arith in
    let right : 1 + n ≡ (1 + n) + 0 = omega arith in
    let byte : n % 256 ≡ n = omega arith in
    (
      chat_from_host-framed chat v (omega arith),
      ap (λ k. decode_chat_payload k p) byte
          ∙ (decode_chat_payload-parts n p rest chat few positive (omega arith) (rw count head)
              (ap (at p) right ∙ at-drop (1 + n) 0 p ∙ ap (λ bs. at bs 0) from_first)
              (at-drop (1 + n) 1 p ∙ ap (λ bs. at bs 1) from_first) third
              (is_terminated-append (as_bytes chat.message)
                (as_bytes-without_nul chat.message no_nul))
              (ap from_utf8 text ∙ from_utf8-as_bytes chat.message scalars) v),
    )
