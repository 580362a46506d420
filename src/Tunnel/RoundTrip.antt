-- ===== src/Tunnel/RoundTrip.antt =====
-- Encoding against decoding of tunnel messages, and the two directions against each other.
use strajer.Common.{
  Result-cases, inl, inr, ℕ, ◌≤◌, ◌<◌, ◌≡◌, ◌≢◌, refl, [], ◌∷◌, arith, ok, err, length, All,
  is_empty-false,
}
use strajer.Common.Bytes.{
  Bytes, IsByte, u64_max, from_le_bytes-to_le_bytes, to_le_bytes-from_le_bytes, from_le_bytes-lt,
}
use strajer.Tunnel.{
  encode_message, decode_message, DecodedMessage, max_tunneled_w3gs_frame_bytes, invalid_kind,
}
use strajer.Tunnel.Agent
use strajer.Tunnel.Server
use strajer.Tunnel.Agent.{AgentGameMessage}
use strajer.Tunnel.Server.{ServerGameMessage}

-- A positive 64-bit sequence number and a frame of 1 to 1,460 bytes.
abbrev pub IsMessage : ℕ → Bytes → Type 0
IsMessage sequence frame =
    (0 < sequence)
    × (sequence ≤ u64_max)
    × (0 < length frame)
    × (length frame ≤ max_tunneled_w3gs_frame_bytes)

pub decode_message-encode_message :
    (kind sequence : ℕ) (frame : Bytes)
    → IsMessage sequence frame
    → decode_message (encode_message kind sequence frame) kind
      ≡ ok (record { sequence = sequence; frame = frame })
unfolding decode_message encode_message
decode_message-encode_message kind sequence [] h = absurd (omega arith)
decode_message-encode_message kind sequence (b ∷ bs) h =
    ground (arith, from_le_bytes-to_le_bytes 8 sequence (omega arith))

decode_message_wrong_kind :
    (kind other sequence : ℕ) (frame : Bytes)
    → IsMessage sequence frame
    → kind ≢ other
    → decode_message (encode_message kind sequence frame) other ≡ err (invalid_kind kind)
unfolding decode_message encode_message
decode_message_wrong_kind kind other sequence frame h ne = ground arith

decode_message_sound :
    (bytes : Bytes) (kind : ℕ) (m : DecodedMessage)
    → All IsByte bytes
    → decode_message bytes kind ≡ ok m
    → IsMessage m.sequence m.frame × (encode_message kind m.sequence m.frame ≡ bytes)
unfolding decode_message encode_message
decode_message_sound
      (a0 ∷ a1 ∷ a2 ∷ a3 ∷ a4 ∷ a5 ∷ a6 ∷ a7 ∷ b0 ∷ b1 ∷ b2 ∷ b3 ∷ b4 ∷ b5 ∷ b6 ∷ b7 ∷ frame) kind m
      h e =
    let sequence : Bytes = b0 ∷ b1 ∷ b2 ∷ b3 ∷ b4 ∷ b5 ∷ b6 ∷ b7 ∷ [] in
    let bytes : All IsByte sequence = omega arith in
    let version : Bytes = a6 ∷ a7 ∷ [] in
    let two : All IsByte version = omega arith in
    ground (
      arith,
      to_le_bytes-from_le_bytes sequence bytes,
      from_le_bytes-lt sequence bytes,
      to_le_bytes-from_le_bytes version two,
    )
decode_message_sound _ kind m h e = ground arith

-- The constructor of the agent's message accepts exactly these pairs.
pub Agent-accepts :
    (m : AgentGameMessage)
    → IsMessage m.sequence m.frame
    → Agent.w3gs_frame m.sequence m.frame ≡ ok m
unfolding Agent.w3gs_frame
Agent-accepts m h = ground (arith, is_empty-false m.frame)

Agent-built :
    (sequence : ℕ) (frame : Bytes) (m : AgentGameMessage)
    → sequence ≤ u64_max
    → Agent.w3gs_frame sequence frame ≡ ok m
    → IsMessage m.sequence m.frame
unfolding Agent.w3gs_frame
Agent-built sequence [] m h e = ground arith
Agent-built sequence (b ∷ bs) m h e = ground arith

-- The constructor of the server's message accepts exactly these pairs.
pub Server-accepts :
    (m : ServerGameMessage)
    → IsMessage m.sequence m.frame
    → Server.w3gs_frame m.sequence m.frame ≡ ok m
unfolding Server.w3gs_frame
Server-accepts m h = ground (arith, is_empty-false m.frame)

Server-built :
    (sequence : ℕ) (frame : Bytes) (m : ServerGameMessage)
    → sequence ≤ u64_max
    → Server.w3gs_frame sequence frame ≡ ok m
    → IsMessage m.sequence m.frame
unfolding Server.w3gs_frame
Server-built sequence [] m h e = ground arith
Server-built sequence (b ∷ bs) m h e = ground arith

-- A message that a constructor returned, at a 64-bit sequence number, is read back from its encoding
-- by the decoder of its own direction.
pub decode-encode :
    (sequence : ℕ) (frame : Bytes) (a : AgentGameMessage) (s : ServerGameMessage)
    → sequence ≤ u64_max
    → Agent.w3gs_frame sequence frame ≡ ok a
    → Server.w3gs_frame sequence frame ≡ ok s
    → (Agent.decode (Agent.encode a) ≡ ok a) × (Server.decode (Server.encode s) ≡ ok s)
unfolding Agent.decode Agent.encode Server.decode Server.encode
decode-encode sequence frame a s h ea es =
    let va = Agent-built sequence frame a h ea in
    let vs = Server-built sequence frame s h es in
    (
      rw (decode_message-encode_message 0x01 a.sequence a.frame va) (Agent-accepts a va),
      rw (decode_message-encode_message 0x81 s.sequence s.frame vs) (Server-accepts s vs),
    )

-- Neither side takes a message of the other direction for one of its own: both refuse it for its
-- kind.
pub decode_wrong_direction :
    (sequence : ℕ) (frame : Bytes) (a : AgentGameMessage) (s : ServerGameMessage)
    → sequence ≤ u64_max
    → Agent.w3gs_frame sequence frame ≡ ok a
    → Server.w3gs_frame sequence frame ≡ ok s
    → (Server.decode (Agent.encode a) ≡ err (invalid_kind 0x01))
      × (Agent.decode (Server.encode s) ≡ err (invalid_kind 0x81))
unfolding Agent.decode Agent.encode Server.decode Server.encode
decode_wrong_direction sequence frame a s h ea es =
    let va = Agent-built sequence frame a h ea in
    let vs = Server-built sequence frame s h es in
    (
      rw (decode_message_wrong_kind 0x01 0x81 a.sequence a.frame va (omega arith)) refl,
      rw (decode_message_wrong_kind 0x81 0x01 s.sequence s.frame vs (omega arith)) refl,
    )

-- Whatever bytes the server accepts from an agent are the encoding of the message that it reads, which
-- has a positive sequence number and a frame of 1 to 1,460 bytes.
pub decode_sound :
    (bytes : Bytes) (a : AgentGameMessage)
    → All IsByte bytes
    → Agent.decode bytes ≡ ok a
    → IsMessage a.sequence a.frame × (Agent.encode a ≡ bytes)
unfolding Agent.decode Agent.encode Agent.w3gs_frame
decode_sound bytes a h e = elim (Result-cases (decode_message bytes 0x01)) [
  | inl (m, d) ↦ ground (arith, decode_message_sound bytes 0x01 m h d)
  | inr (x, d) ↦ cc (rw (d, Agent.decode) at e)
]
