-- ===== src/Session/Joins.antt =====
-- What `receive_join_message` of apps/strajer-server/src/http.rs lets through.
use strajer.Common.{
  ◌≡◌, refl, ltb, Option, none, some, Result, ok, err, ◌>>=◌, ok_or, reject_if, map_err, arith,
}
use strajer.Common.Texts.{Text, str_len}
use strajer.Protocol.{validate_lobby_player_name, max_lobby_control_message_bytes}
use strajer.Protocol.Messages.{
  AgentLobbyMessage, LobbyJoinRejection, validate_message, validate_lobby_session_protocol_version,
}
use strajer.Session.{
  Message, text, binary, ping, pong, close, map_validation_error, receive_join_message,
}
use strajer.Session.Calls.{map_err-ok}

-- The name of a join that was received passed the check.
abbrev pub IsReceived : Result LobbyJoinRejection AgentLobbyMessage → Type 0
IsReceived (err code) = Unit {0}
IsReceived (ok (AgentLobbyMessage.join version name)) = validate_lobby_player_name name ≡ ok tt
IsReceived (ok (AgentLobbyMessage.ready version)) = Unit {0}
IsReceived (ok (AgentLobbyMessage.loaded version)) = Unit {0}
IsReceived (ok (AgentLobbyMessage.chat version message)) = Unit {0}
IsReceived (ok (AgentLobbyMessage.leave version reason)) = Unit {0}

bind-IsReceived :
    {A : Type 0} (x : Result LobbyJoinRejection A)
    (k : A → Result LobbyJoinRejection AgentLobbyMessage)
    → ((a : A) → x ≡ ok a → IsReceived (k a))
    → IsReceived (x >>= k)
bind-IsReceived (ok a) k h = h a refl
bind-IsReceived (err e) k h = tt

valid-IsReceived : (m : AgentLobbyMessage) → validate_message m ≡ ok tt → IsReceived (ok m)
unfolding validate_message validate_lobby_session_protocol_version
valid-IsReceived (AgentLobbyMessage.join version name) h = ground arith
valid-IsReceived (AgentLobbyMessage.ready version) h = tt
valid-IsReceived (AgentLobbyMessage.loaded version) h = tt
valid-IsReceived (AgentLobbyMessage.chat version message) h = tt
valid-IsReceived (AgentLobbyMessage.leave version reason) h = tt

pub receive_join_message-IsReceived :
    (parse : Text → Option AgentLobbyMessage) (m : Option Message)
    → IsReceived (receive_join_message parse m)
unfolding receive_join_message
receive_join_message-IsReceived parse none = tt
receive_join_message-IsReceived parse (some (text t)) =
    bind-IsReceived (reject_if (ltb max_lobby_control_message_bytes (str_len t)) _) _ λ _ _.
      bind-IsReceived (ok_or (parse t) _) _ λ m _.
        bind-IsReceived (map_err map_validation_error (validate_message m)) _
          λ u h. valid-IsReceived m (map_err-ok map_validation_error _ u h)
receive_join_message-IsReceived parse (some (binary b)) = tt
receive_join_message-IsReceived parse (some (ping b)) = tt
receive_join_message-IsReceived parse (some (pong b)) = tt
receive_join_message-IsReceived parse (some close) = tt
