-- ===== src/Link/Actions.antt =====
-- The game frames of an agent, from its session to the room of the server.
use strajer.Common.{
  ℕ, ◌+◌, ◌≤◌, ◌<◌, ◌≡◌, refl, true, [], ◌∷◌, ◌++◌, Option, ok, arith, length, le→ltb,
  length-append,
}
use strajer.Common.Bytes.{Bytes, u64_max, to_le_bytes, length-to_le_bytes}
use strajer.Common.Texts.{Text}
use strajer.Frame.{Frame, to_bytes}
use strajer.Frame.Shape.{IsFrame, length-to_bytes}
use strajer.Frame.RoundTrip.{decode_exact-to_bytes}
use strajer.Tunnel.{encode_message, max_game_tunnel_message_bytes}
use strajer.Tunnel.Agent
use strajer.Tunnel.Agent.{AgentGameMessage}
use strajer.Tunnel.RoundTrip.{IsMessage, Agent-accepts, decode_message-encode_message}
use strajer.Protocol.Messages.{AgentLobbyMessage}
use strajer.Room.{Room}
use strajer.Room.Actions.{◌>>=◌}
use strajer.Session.Handlers.{handle_game_frame, handle_active_agent_game_message}
use strajer.Remote.{Message, RemoteLobbySession}
use strajer.Remote.Sessions.{encode_game_frame, send_game_frame}

length-encode : (m : AgentGameMessage) → length (Agent.encode m) ≡ 16 + length m.frame
unfolding Agent.encode encode_message
length-encode m =
    omega (arith, length-append (to_le_bytes 8 m.sequence) m.frame, length-to_le_bytes 8 m.sequence)

decode-encode :
    (m : AgentGameMessage) → IsMessage m.sequence m.frame → Agent.decode (Agent.encode m) ≡ ok m
unfolding Agent.decode Agent.encode
decode-encode m h = rw (decode_message-encode_message 0x01 m.sequence m.frame h) (Agent-accepts m h)

module _ (f : Frame) (valid : IsFrame f) (short : f.frame_length ≤ 1460) where
  abbrev tunneled : ℕ → AgentGameMessage
  tunneled n = record { sequence = n; frame = to_bytes f }

  tunneled-IsMessage : (n : ℕ) → 0 < n → n ≤ u64_max → IsMessage n (to_bytes f)
  tunneled-IsMessage n low high = omega (arith, length-to_bytes f valid, valid.exact)

  encoded_frame :
      (print : AgentLobbyMessage → Option Text) (n : ℕ)
      → 0 < n
      → n ≤ u64_max
      → encode_game_frame print true n f ≡ ok (Message.binary (Agent.encode (tunneled n)))
  unfolding encode_game_frame
  encoded_frame print n low high =
      rw (Agent-accepts (tunneled n) (tunneled-IsMessage n low high)) refl

  sent_frame :
      (print : AgentLobbyMessage → Option Text) (s : RemoteLobbySession)
      → s.last_sent_game_sequence + 1 ≤ u64_max
      → send_game_frame print true f s ≡ (
        ok tt,
        record s {
          last_sent_game_sequence = s.last_sent_game_sequence + 1;
          sent =
              s.sent
              ++ (Message.binary (Agent.encode (tunneled (s.last_sent_game_sequence + 1))) ∷ []);
        },
      )
  unfolding send_game_frame
  sent_frame print s few =
      ground (arith, encoded_frame print (s.last_sent_game_sequence + 1) (omega arith) few)

  handled_frame :
      (hash : Bytes → ℕ) (k session n : ℕ) (r : Room)
      → 0 < n
      → n ≤ u64_max
      → handle_active_agent_game_message hash k session (Agent.encode (tunneled n)) r
        ≡ handle_game_frame hash k session n f r
  unfolding handle_active_agent_game_message ◌>>=◌
  handled_frame hash k session n r low high =
      let m = tunneled-IsMessage n low high in
      rw
        (
          le→ltb max_game_tunnel_message_bytes (length (Agent.encode (tunneled n)))
              (omega (arith, length-encode (tunneled n))),
          decode-encode (tunneled n) m,
          decode_exact-to_bytes f 1460 valid short (omega arith),
        )
        refl

  -- A truthful frame of at most 1,460 bytes, sent by an agent that has a number left, reaches the server
  -- as that frame under the next number of the agent: the server then does what `handle_game_frame` does
  -- with it.
  pub frame_arrives :
      (hash : Bytes → ℕ) (print : AgentLobbyMessage → Option Text) (k session : ℕ)
      (s : RemoteLobbySession) (r : Room)
      → s.last_sent_game_sequence + 1 ≤ u64_max
      → (payload : Bytes) × (send_game_frame print true f s ≡ (
        ok tt,
        record s {
          last_sent_game_sequence = s.last_sent_game_sequence + 1;
          sent = s.sent ++ (Message.binary payload ∷ []);
        },
      ))
        × (handle_active_agent_game_message hash k session payload r
            ≡ handle_game_frame hash k session (s.last_sent_game_sequence + 1) f r)
  frame_arrives hash print k session s r few =
      let n : ℕ = s.last_sent_game_sequence + 1 in
      (
        Agent.encode (tunneled n),
        sent_frame print s few,
        handled_frame hash k session n r (omega arith) few,
      )
