-- ===== src/Protocol/Messages/Valid.antt =====
-- Which control messages are valid, and which codes stand for a reason to leave.
use strajer.Common.{ℕ, ◌≡◌, ◌↔◌, ok, arith}
use strajer.Protocol.{
  LobbyLeaveReason, disconnect, lost, lost_buildings, won, draw, observer, lobby,
}
use strajer.Protocol.Messages.{
  AgentLobbyMessage, new_join, new_ready, new_loaded, new_chat, new_leave, validate_message,
  validate_lobby_session_protocol_version, from_w3gs_code, w3gs_code,
}

-- The constructor of its kind returns this message.
abbrev pub Constructed : AgentLobbyMessage → Type 0
Constructed (AgentLobbyMessage.join version name) =
    new_join name ≡ ok (AgentLobbyMessage.join version name)
Constructed (AgentLobbyMessage.ready version) = new_ready ≡ AgentLobbyMessage.ready version
Constructed (AgentLobbyMessage.loaded version) = new_loaded ≡ AgentLobbyMessage.loaded version
Constructed (AgentLobbyMessage.chat version message) =
    new_chat message ≡ ok (AgentLobbyMessage.chat version message)
Constructed (AgentLobbyMessage.leave version reason) =
    new_leave reason ≡ AgentLobbyMessage.leave version reason

-- `AgentLobbyMessage::validate` accepts exactly the messages that the constructors return.
pub validate_message_iff : (m : AgentLobbyMessage) → (validate_message m ≡ ok tt) ↔ Constructed m
unfolding validate_message new_join new_ready new_loaded new_chat new_leave
    validate_lobby_session_protocol_version
validate_message_iff (AgentLobbyMessage.join version name) = ground arith
validate_message_iff (AgentLobbyMessage.ready version) = ground arith
validate_message_iff (AgentLobbyMessage.loaded version) = ground arith
validate_message_iff (AgentLobbyMessage.chat version message) = ground arith
validate_message_iff (AgentLobbyMessage.leave version reason) = ground arith

-- A code stands for a reason exactly if it is the code of that reason.
pub from_w3gs_code_iff :
    (code : ℕ) (reason : LobbyLeaveReason)
    → (from_w3gs_code code ≡ ok reason) ↔ (code ≡ w3gs_code reason)
unfolding from_w3gs_code w3gs_code
from_w3gs_code_iff code disconnect = ground arith
from_w3gs_code_iff code lost = ground arith
from_w3gs_code_iff code lost_buildings = ground arith
from_w3gs_code_iff code won = ground arith
from_w3gs_code_iff code draw = ground arith
from_w3gs_code_iff code observer = ground arith
from_w3gs_code_iff code lobby = ground arith
