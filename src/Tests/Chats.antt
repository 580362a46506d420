-- ===== src/Tests/Chats.antt =====
-- Lobby chat of the game.
use strajer.Common.{◌≡◌, refl, [], ◌∷◌, ok, arith, inl}
use strajer.Frame.Shape.{framed}
use strajer.Control.{
  LobbyChatToHost, decode_lobby_chat, decode_chat_payload, chat_from_host, chat_payload,
  validate_chat_recipients, validate_chat_message,
}
use strajer.Common.Utf8.{from_utf8, decode_utf8}
use strajer.Control.Chat.{decode-chat}

-- "hé", to two players.
abbrev greeting : LobbyChatToHost
greeting = record {
  from_player_id = 2;
  recipient_player_ids = 1 ∷ 3 ∷ [];
  message = 0x68 ∷ 0xE9 ∷ [];
}

decode-chat_example :
    (chat_from_host 2 (1 ∷ 3 ∷ []) (0x68 ∷ 0xE9 ∷ [])
      ≡ ok (framed 0x0F (chat_payload 2 (1 ∷ 3 ∷ []) (0x68 ∷ 0xE9 ∷ []))))
    × (decode_lobby_chat (framed 0x28 (chat_payload 2 (1 ∷ 3 ∷ []) (0x68 ∷ 0xE9 ∷ [])))
        ≡ ok greeting)
unfolding validate_chat_recipients validate_chat_message
decode-chat_example =
    decode-chat greeting (record { sender = omega arith; recipients = refl; message = refl })
      (inl (omega arith), (inl (omega arith), tt))

greeting_decoded :
    decode_lobby_chat (framed 0x28 (2 ∷ 1 ∷ 3 ∷ 2 ∷ 0x10 ∷ 0x68 ∷ 0xC3 ∷ 0xA9 ∷ 0 ∷ []))
    ≡ ok greeting
unfolding decode_lobby_chat decode_chat_payload validate_chat_recipients validate_chat_message
    from_utf8 decode_utf8
greeting_decoded = refl
