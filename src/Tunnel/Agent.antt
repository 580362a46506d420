-- ===== src/Tunnel/Agent.antt =====
-- `AgentGameMessage` of crates/strajer-protocol/src/game_tunnel.rs: what the agent sends.
use strajer.Common.{ℕ, Result, ok, ◌>>=◌, ◌>>◌}
use strajer.Common.Bytes.{Bytes}
use strajer.Tunnel.{
  GameTunnelError, agent_w3gs_frame_kind, validate_sequence, validate_w3gs_frame, encode_message,
  decode_message,
}

-- The enum has the one variant `W3gsFrame`.
pub record AgentGameMessage : Type 0 where
  pub sequence : ℕ
  pub frame : Bytes

unfoldable pub w3gs_frame : ℕ → Bytes → Result GameTunnelError AgentGameMessage
unfolding validate_sequence validate_w3gs_frame
w3gs_frame sequence frame = do
  validate_sequence sequence
  validate_w3gs_frame frame
  ok (record { sequence = sequence; frame = frame })

unfoldable pub encode : AgentGameMessage → Bytes
encode m = encode_message agent_w3gs_frame_kind m.sequence m.frame

unfoldable pub decode : Bytes → Result GameTunnelError AgentGameMessage
decode bytes = do
  decoded ← decode_message bytes agent_w3gs_frame_kind
  w3gs_frame decoded.sequence decoded.frame
