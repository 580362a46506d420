-- ===== src/Session/Calls.antt =====
-- A message of a connected player reaches the room only through one of its calls, made in the player's
-- own name.
use strajer.Common.{ℕ, ◌≤◌, ◌≡◌, refl, Option, Result, ok, err, map_err, arith, All, All-drop}
use strajer.Common.Bytes.{Bytes, IsByte, u8_max}
use strajer.Common.Texts.{Text}
use strajer.Frame.{Frame}
use strajer.Frame.RoundTrip.{decode_exact_sound}
use strajer.Tunnel.{decode_message}
use strajer.Tunnel.Agent
use strajer.Tunnel.Agent.{AgentGameMessage}
use strajer.Game.{OutgoingAction, PlayerAction, decode_action, new_action}
use strajer.Game.Groups.{IsAction}
use strajer.Protocol.{validate_lobby_chat_message}
use strajer.Protocol.Messages.{
  AgentLobbyMessage, ServerLobbyMessage, validate_message, validate_lobby_session_protocol_version,
}
use strajer.Room.{Room}
use strajer.Room.Actions.{Action, pure, from, ◌>>=◌}
use strajer.Room.Rules.{Leaves, pure_end, if_rule, reject_rule, from_rule, bind_rule}
use strajer.Room.Tasks.{
  Call, call, joins, readies, loads, requests_start, acts, keeps_alive, chats, leaves, IsCall,
}
use strajer.Room.Lobby.{mark_ready, publish_chat, request_manual_start}
use strajer.Room.Play.{mark_loaded, submit_action, submit_keepalive, leave}
use strajer.Session.{
  SessionError, invalid_message, refused, game, tunnel, frame, Message, text, binary, ping, pong,
  close,
}
use strajer.Session.Handlers.{
  context, handle_message, handle_active_agent_message, handle_game_frame,
  handle_active_agent_game_message,
}
use strajer.Session.Loop.{on_message}

-- A call of the player in this session. Its action is the player's own and one that the room takes.
abbrev pub IsOwn : ℕ → ℕ → Call → Type 0
IsOwn player_id session_id (joins name) = ⊥
IsOwn player_id session_id (readies k n) = (k ≡ player_id) × (n ≡ session_id)
IsOwn player_id session_id (loads k n) = (k ≡ player_id) × (n ≡ session_id)
IsOwn player_id session_id (requests_start k n) = (k ≡ player_id) × (n ≡ session_id)
IsOwn player_id session_id (acts k n sequence action) =
    (k ≡ player_id) × (n ≡ session_id) × (action.player_id ≡ player_id) × IsAction action
IsOwn player_id session_id (keeps_alive k n sequence checksum) = (k ≡ player_id) × (n ≡ session_id)
IsOwn player_id session_id (chats k n message now) =
    (k ≡ player_id) × (n ≡ session_id) × (validate_lobby_chat_message message ≡ ok tt)
IsOwn player_id session_id (leaves k n reason) = (k ≡ player_id) × (n ≡ session_id)

pub IsOwn-IsCall : (player_id session_id : ℕ) (c : Call) → IsOwn player_id session_id c → IsCall c
IsOwn-IsCall player_id session_id (joins name) h = absurd h
IsOwn-IsCall player_id session_id (readies k n) h = tt
IsOwn-IsCall player_id session_id (loads k n) h = tt
IsOwn-IsCall player_id session_id (requests_start k n) h = tt
IsOwn-IsCall player_id session_id (acts k n sequence action) h = h.3
IsOwn-IsCall player_id session_id (keeps_alive k n sequence checksum) h = tt
IsOwn-IsCall player_id session_id (chats k n message now) h = h.2
IsOwn-IsCall player_id session_id (leaves k n reason) h = tt

-- The room is as it was, or as one call of the player leaves it.
pub data Driven (hash : Bytes → ℕ) (player_id session_id : ℕ) (r : Room) (s : Room) : Type 0 where
  untouched : s ≡ r → Driven hash player_id session_id r s
  called :
      (c : Call)
      → IsOwn player_id session_id c
      → s ≡ call hash c r
      → Driven hash player_id session_id r s

module _ {ℓ} {E A B : Type 0} (P : Room → Type ℓ) (r : Room) where
  -- A handler of the room as the first part of a handler here.
  context_rule :
      (f : E → SessionError) (m : Action E A) (k : A → B)
      → P (m r).1
      → Leaves P (context f m >>= λ a. pure (k a)) r
  unfolding context
  context_rule f m k h = bind_rule _ _ (record { holds = h }) λ a _. pure_end _ h

module _ {ℓ} {E A : Type 0} (P : Room → Type ℓ) (r : Room) where
  context_end : (f : E → SessionError) (m : Action E A) → P (m r).1 → Leaves P (context f m) r
  unfolding context
  context_end f m h = record { holds = h }

module _ {ℓ} {A : Type 0} (P : Room → Type ℓ) (r : Room) where
  error_end : (e : SessionError) → P r → Leaves P (from {A = A} (err e)) r
  unfolding from
  error_end e h = record { holds = h }

-- The frame of a tunnel message is the end of its bytes.
decode_frame :
    (bytes : Bytes) (m : AgentGameMessage)
    → All IsByte bytes
    → Agent.decode bytes ≡ ok m
    → All IsByte m.frame
unfolding Agent.decode Agent.w3gs_frame decode_message
decode_frame bytes m h e = ground (arith, All-drop IsByte 16 bytes h)

-- What `OutgoingAction::decode` and `PlayerAction::new` make of a frame of bytes.
decoded-IsAction :
    (hash : Bytes → ℕ) (player_id : ℕ) (f : Frame) (o : OutgoingAction) (a : PlayerAction)
    → player_id ≤ u8_max
    → All IsByte f.payload
    → decode_action hash f ≡ ok o
    → new_action player_id o.bytes ≡ ok a
    → (a.player_id ≡ player_id) × IsAction a
unfolding decode_action new_action
decoded-IsAction hash player_id f o a small h d n = ground (arith, All-drop IsByte 4 f.payload h)

chat_valid :
    (version : ℕ) (message : Text)
    → validate_message (AgentLobbyMessage.chat version message) ≡ ok tt
    → validate_lobby_chat_message message ≡ ok tt
unfolding validate_message validate_lobby_session_protocol_version
chat_valid version message h = ground arith

pub map_err-ok :
    {E F A : Type 0} (f : E → F) (x : Result E A) (a : A) → map_err f x ≡ ok a → x ≡ ok a
map_err-ok f (ok b) a h = cc
map_err-ok f (err e) a h = cc

module _ (hash : Bytes → ℕ) (player_id session_id : ℕ) where
  abbrev Drives : {A : Type 0} → Action SessionError A → Room → Type 0
  Drives m r = Leaves (Driven hash player_id session_id r) m r

  handle_message-Drives :
      (now : ℕ) (m : AgentLobbyMessage) (r : Room)
      → validate_message m ≡ ok tt
      → Drives (handle_message hash player_id session_id now m) r
  unfolding handle_message call
  handle_message-Drives now (AgentLobbyMessage.ready version) r h =
      context_rule _ r refused (mark_ready player_id session_id) _
        (called (readies player_id session_id) (refl, refl) refl)
  handle_message-Drives now (AgentLobbyMessage.loaded version) r h =
      context_rule _ r refused (mark_loaded player_id session_id) _
        (called (loads player_id session_id) (refl, refl) refl)
  handle_message-Drives now (AgentLobbyMessage.chat version message) r h =
      if_rule _ _ _
        (λ _.
          context_rule _ r refused (request_manual_start player_id session_id) _
            (called (requests_start player_id session_id) (refl, refl) refl))
        λ _. context_rule _ r refused (publish_chat player_id session_id message now) _ (
          called (chats player_id session_id message now) (refl, refl, chat_valid version message h)
            refl)
  handle_message-Drives now (AgentLobbyMessage.leave version reason) r h =
      context_rule _ r refused (leave hash player_id session_id reason) _
        (called (leaves player_id session_id reason) (refl, refl) refl)
  handle_message-Drives now (AgentLobbyMessage.join version name) r h =
      error_end _ r _ (untouched refl)

  handle_game_frame-Drives :
      (sequence : ℕ) (f : Frame) (r : Room)
      → player_id ≤ u8_max
      → All IsByte f.payload
      → Drives (handle_game_frame hash player_id session_id sequence f) r
  unfolding handle_game_frame call
  handle_game_frame-Drives sequence f r small bytes =
      if_rule _ _ _
        (λ _. from_rule _ _ (untouched refl) λ outgoing d.
          from_rule _ _ (untouched refl) λ action n.
            context_end _ r refused (submit_action player_id session_id sequence action) (
              let (own, valid) =
                decoded-IsAction hash player_id f outgoing action small bytes
                  (map_err-ok game _ outgoing d) (map_err-ok game _ action n) in
              called (acts player_id session_id sequence action) (refl, refl, own, valid) refl))
        λ _.
          if_rule _ _ _
            (λ _. from_rule _ _ (untouched refl) λ keepalive _.
              context_end _ r refused
                (submit_keepalive player_id session_id sequence keepalive.checksum)
                (called (keeps_alive player_id session_id sequence keepalive.checksum) (refl, refl)
                  refl))
            λ _. error_end _ r _ (untouched refl)

  text-Drives :
      (now : ℕ) (parse : Text → Option AgentLobbyMessage) (t : Text) (r : Room)
      → Drives (handle_active_agent_message hash player_id session_id now parse t) r
  unfolding handle_active_agent_message
  text-Drives now parse t r = reject_rule _ _ _ (untouched refl) λ _.
      from_rule _ _ (untouched refl) λ message _.
        from_rule _ _ (untouched refl)
          λ u valid. handle_message-Drives now message r (map_err-ok invalid_message _ u valid)

  binary-Drives :
      (payload : Bytes) (r : Room)
      → player_id ≤ u8_max
      → All IsByte payload
      → Drives (handle_active_agent_game_message hash player_id session_id payload) r
  unfolding handle_active_agent_game_message
  binary-Drives payload r small bytes = reject_rule _ _ _ (untouched refl) λ _.
      from_rule _ _ (untouched refl) λ message d. from_rule _ _ (untouched refl) λ f e.
        let carried = decode_frame payload message bytes (map_err-ok tunnel _ message d) in
        let (valid, _, _) = decode_exact_sound message.frame _ f carried (map_err-ok frame _ f e) in
        handle_game_frame-Drives message.sequence f r small valid.bytes

-- The bytes of a message of the socket are bytes.
abbrev pub IsMessage : Message → Type 0
IsMessage (text t) = Unit {0}
IsMessage (binary b) = All IsByte b
IsMessage (ping b) = Unit {0}
IsMessage (pong b) = Unit {0}
IsMessage close = Unit {0}

-- Whatever a connected player sends, text or binary, valid or not, the room is left as it was or as one
-- call leaves it that carries the player's own id and session. An action that reaches the room is
-- one that the room takes, under the id of the player who sent it.
pub on_message-Driven :
    (hash : Bytes → ℕ) (parse : Text → Option AgentLobbyMessage)
    (print : ServerLobbyMessage → Option Text) (player_id session_id now : ℕ) (m : Message)
    (r : Room)
    → player_id ≤ u8_max
    → IsMessage m
    → Driven hash player_id session_id r
        (on_message hash parse print player_id session_id now m r).1
unfolding on_message
on_message-Driven hash parse print k n now (text t) r small h =
    (text-Drives hash k n now parse t r).holds
on_message-Driven hash parse print k n now (binary b) r small h =
    (binary-Drives hash k n b r small h).holds
on_message-Driven hash parse print k n now (ping b) r small h = untouched refl
on_message-Driven hash parse print k n now (pong b) r small h = untouched refl
on_message-Driven hash parse print k n now close r small h = untouched refl
