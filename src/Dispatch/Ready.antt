-- ===== src/Dispatch/Ready.antt =====
-- When the agent of apps/strajer-agent/src/main.rs tells the server that a player is ready.
use strajer.Common.{
  ◌⊎◌, inl, inr, List, [], ◌∷◌, sym, ℕ, ◌≡◌, refl, ◌∙◌, ap, Bool, true, false, not, Option, some,
  Result, ok, err, map_err, ◌==◌, arith,
}
use strajer.Common.Bytes.{Bytes}
use strajer.Common.Texts.{Text}
use strajer.Frame.{Frame}
use strajer.Protocol.Messages.{AgentLobbyMessage}
use strajer.Remote.Sessions
use strajer.Transfer.{TransferError}
use strajer.Maps.{map_size_packet_id}
use strajer.Transfer.States.{
  verified, awaiting_status, TransferConfig, Handled, handle_map_size, advance_map_transfer,
  send_pending,
}
use strajer.Dispatch.{
  LobbyGame, map_ready, refuse, proceed, after_remote, write_frame, moved, on_transfer, on_map_size,
  on_protobuf, on_leave_request, on_loaded, on_action, on_keepalive, on_chat, handle_lobby_frame,
  protobuf, player, acknowledgement, unsupported_leave_reason, wrong_chat_sender, acknowledge_leave,
  map_part_not_ok_packet_id, continues, session_ended,
}
use strajer.Control.{
  LobbyChatToHost, ControlFrameError, unsupported_chat_flag, unexpected_packet_id,
  malformed_lobby_chat, invalid_sender_player_id, invalid_recipients, invalid_message_encoding,
  invalid_message, frame, chat_to_host_packet_id, leave_ack, decode_lobby_chat,
}
use strajer.Protobuf.{protobuf_packet_id, decode_envelope, should_echo_in_lobby}
use strajer.Players.{leave_request_reason, leave_request_packet_id, game_loaded_self_packet_id}
use strajer.Game.{outgoing_action_packet_id, outgoing_keepalive_packet_id}
use strajer.Protocol.Messages.{from_w3gs_code}
use strajer.Dispatch.Honest.{
  IsHonest, IsHonest-map, mark_loaded-Silent, send_game_frame-Silent, send_chat-Silent,
  leave-Silent, after_remote-IsHonest, after_remote-map_transfer, write_frame-IsHonest,
  attempt-IsHonest, followed-IsHonest, if-IsHonest,
}
use strajer.Dispatch.Statuses.{
  Reports, HasReport, handle_map_size-verified, handle_map_size-state, verified_stays,
  advance_map_transfer-state,
}

module _ (writes : Bool) (c : TransferConfig) (player_id : ℕ) where
  module _ (hash : Bytes → ℕ) (print : AgentLobbyMessage → Option Text) (sends : Bool) where
    on_transfer-IsHonest :
        {T : Type 0} (result : Result TransferError Bool) (g : LobbyGame)
        → (result ≡ ok true → g.map_transfer ≡ verified)
        → IsHonest T g
        → IsHonest T (on_transfer hash print sends writes c player_id result g).behind
    on_transfer-IsHonest (err e) g h v = v
    on_transfer-IsHonest (ok false) g h v = v
    on_transfer-IsHonest (ok true) g h v = record {
      honest = λ e.
          after_remote-map_transfer g map_ready (Sessions.mark_ready print sends g.remote_session)
          ∙ h refl;
      reported = λ e. v.reported (
          sym (
            after_remote-map_transfer g map_ready
              (Sessions.mark_ready print sends g.remote_session))
          ∙ e);
    }

    on_map_size-IsHonest :
        {T : Type 0} (now : ℕ) (f : Frame) (g : LobbyGame)
        → IsHonest T g
        → IsHonest
            (Reports c f ⊎ T)
            (on_map_size hash print sends writes c player_id now f g).behind
    unfolding on_map_size
    on_map_size-IsHonest now f g v =
        on_transfer-IsHonest (handle_map_size c player_id writes now f g.map_transfer).result
          (moved g (handle_map_size c player_id writes now f g.map_transfer))
          (handle_map_size-verified writes c player_id now f g.map_transfer)
          (record {
            honest = λ ready.
                ap (λ s. (handle_map_size c player_id writes now f s).state) (v.honest ready)
                ∙ verified_stays writes c player_id now f;
            reported = λ e. elim (handle_map_size-state writes c player_id now f g.map_transfer e) [
              | inl reports ↦ inl reports
              | inr before ↦ inr (v.reported before)
            ];
          })

    on_protobuf-IsHonest :
        {T : Type 0} (f : Frame) (g : LobbyGame)
        → IsHonest T g
        → IsHonest T (on_protobuf hash print sends writes c player_id f g).behind
    unfolding on_protobuf
    on_protobuf-IsHonest f g v =
        attempt-IsHonest (map_err protobuf (decode_envelope f)) g _
          (λ e same.
            if-IsHonest (should_echo_in_lobby e) (write_frame writes f continues g) (proceed g)
              (write_frame-IsHonest writes f continues g v) v)
          v

    acknowledge_leave-IsHonest :
        {T : Type 0} (g : LobbyGame) → IsHonest T g → IsHonest T (acknowledge_leave writes g).behind
    unfolding acknowledge_leave
    acknowledge_leave-IsHonest g v =
        attempt-IsHonest (map_err acknowledgement leave_ack) g
          (λ ack. write_frame writes ack session_ended g)
          (λ ack same. write_frame-IsHonest writes ack session_ended g v) v

    on_leave_request-IsHonest :
        {T : Type 0} (f : Frame) (g : LobbyGame)
        → IsHonest T g
        → IsHonest T (on_leave_request hash print sends writes c player_id f g).behind
    unfolding on_leave_request
    on_leave_request-IsHonest f g v =
        attempt-IsHonest (map_err player (leave_request_reason f)) g _
          (λ raw_reason same.
            attempt-IsHonest (map_err (λ e. unsupported_leave_reason) (from_w3gs_code raw_reason)) g
              _
              (λ reason same'.
                let left =
                  after_remote-IsHonest g continues
                    (Sessions.leave print sends reason g.remote_session)
                    (leave-Silent print sends g.remote_session reason) v in
                followed-IsHonest
                  (after_remote g continues
                    (Sessions.leave print sends reason g.remote_session)).outcome
                  (after_remote g continues
                    (Sessions.leave print sends reason g.remote_session)).behind
                  (acknowledge_leave writes) (acknowledge_leave-IsHonest _ left) left)
              v)
          v

    on_loaded-IsHonest :
        {T : Type 0} (started : Bool) (f : Frame) (g : LobbyGame)
        → IsHonest T g
        → IsHonest T (on_loaded hash print sends writes c player_id started f g).behind
    unfolding on_loaded
    on_loaded-IsHonest started f g v =
        attempt-IsHonest _ g _
          (λ done same.
            after_remote-IsHonest g continues (Sessions.mark_loaded print sends g.remote_session)
              (mark_loaded-Silent print sends g.remote_session) v)
          v

    on_action-IsHonest :
        {T : Type 0} (started : Bool) (f : Frame) (g : LobbyGame)
        → IsHonest T g
        → IsHonest T (on_action hash print sends writes c player_id started f g).behind
    unfolding on_action
    on_action-IsHonest started f g v =
        attempt-IsHonest _ g _
          (λ action same.
            after_remote-IsHonest g continues
              (Sessions.send_game_frame print sends f g.remote_session)
              (send_game_frame-Silent print sends g.remote_session f) v)
          v

    on_keepalive-IsHonest :
        {T : Type 0} (started : Bool) (f : Frame) (g : LobbyGame)
        → IsHonest T g
        → IsHonest T (on_keepalive hash print sends writes c player_id started f g).behind
    unfolding on_keepalive
    on_keepalive-IsHonest started f g v =
        attempt-IsHonest _ g _
          (λ keepalive same.
            after_remote-IsHonest g continues
              (Sessions.send_game_frame print sends f g.remote_session)
              (send_game_frame-Silent print sends g.remote_session f) v)
          v

    on_chat-IsHonest :
        {T : Type 0} (x : Result ControlFrameError LobbyChatToHost) (g : LobbyGame)
        → IsHonest T g
        → IsHonest T (on_chat hash print sends writes c player_id x g).behind
    unfolding on_chat
    on_chat-IsHonest (ok said) g v =
        if-IsHonest (not (said.from_player_id == player_id)) (refuse g wrong_chat_sender) _ v (
          after_remote-IsHonest g continues
            (Sessions.send_chat print sends said.message g.remote_session)
            (send_chat-Silent print sends g.remote_session said.message) v)
    on_chat-IsHonest (err (unsupported_chat_flag flag)) g v = v
    on_chat-IsHonest (err (unexpected_packet_id actual)) g v = v
    on_chat-IsHonest (err malformed_lobby_chat) g v = v
    on_chat-IsHonest (err invalid_sender_player_id) g v = v
    on_chat-IsHonest (err invalid_recipients) g v = v
    on_chat-IsHonest (err invalid_message_encoding) g v = v
    on_chat-IsHonest (err (invalid_message actual maximum)) g v = v
    on_chat-IsHonest (err (frame e)) g v = v

    handle_lobby_frame-IsHonest :
        {T : Type 0} (started : Bool) (now : ℕ) (f : Frame) (g : LobbyGame)
        → IsHonest T g
        → IsHonest
            (Reports c f ⊎ T)
            (handle_lobby_frame hash print sends writes c player_id started now f g).behind
    unfolding handle_lobby_frame
    handle_lobby_frame-IsHonest {T = T} started now f g v =
        let w = IsHonest-map {U = Reports c f ⊎ T} inr v in
        if-IsHonest (f.packet_id == map_size_packet_id) _ _ (on_map_size-IsHonest now f g v) (
          if-IsHonest (f.packet_id == map_part_not_ok_packet_id) _ _ w (
            if-IsHonest (f.packet_id == protobuf_packet_id) _ _ (on_protobuf-IsHonest f g w) (
              if-IsHonest (f.packet_id == leave_request_packet_id) _ _
                (on_leave_request-IsHonest f g w)
                (if-IsHonest (f.packet_id == game_loaded_self_packet_id) _ _
                  (on_loaded-IsHonest started f g w)
                  (if-IsHonest (f.packet_id == outgoing_action_packet_id) _ _
                    (on_action-IsHonest started f g w)
                    (if-IsHonest (f.packet_id == outgoing_keepalive_packet_id) _ _
                      (on_keepalive-IsHonest started f g w)
                      (if-IsHonest (f.packet_id == chat_to_host_packet_id) _ _
                        (on_chat-IsHonest (decode_lobby_chat f) g w) w)))))))

    -- Packets of the game, with those received first, and timers, in any order. A timer finds the map
    -- prepared or not.
    pub data Plays (start : LobbyGame) : LobbyGame → List Frame → Type 0 where
      starts : Plays start start []
      receives :
          {g : LobbyGame} {frames : List Frame}
          → Plays start g frames
          → (started : Bool) (now : ℕ) (f : Frame)
          → Plays start
              (handle_lobby_frame hash print sends writes c player_id started now f g).behind
              (f ∷ frames)
      ticks :
          {g : LobbyGame} {frames : List Frame}
          → Plays start g frames
          → (prepared : Option (Result TransferError Bytes)) (now : ℕ) (h : Handled)
          → advance_map_transfer hash c prepared writes now g.map_transfer ≡ some h
          → Plays start (moved g h) frames

    tick-IsHonest :
        {T : Type 0} (prepared : Option (Result TransferError Bytes)) (now : ℕ) (h : Handled)
        (g : LobbyGame)
        → advance_map_transfer hash c prepared writes now g.map_transfer ≡ some h
        → IsHonest T g
        → IsHonest T (moved g h)
    unfolding advance_map_transfer send_pending
    tick-IsHonest prepared now h g e v = record {
      honest = λ ready. ground (arith, rw (v.honest ready) at e);
      reported = λ done.
          v.reported (
            advance_map_transfer-state writes c player_id hash prepared now g.map_transfer h e
              done);
    }

    Plays-IsHonest :
        (g h : LobbyGame) (frames : List Frame)
        → Plays g h frames
        → IsHonest ⊥ g
        → IsHonest (HasReport c frames) h
    Plays-IsHonest g _ _ starts v = v
    Plays-IsHonest g _ _ (receives {g = h} {frames = frames} plays started now f) v =
        handle_lobby_frame-IsHonest started now f h (Plays-IsHonest g h frames plays v)
    Plays-IsHonest g _ _ (ticks {g = h} {frames = frames} plays prepared now m e) v =
        tick-IsHonest prepared now m h e (Plays-IsHonest g h frames plays v)

-- An agent that still awaits the game's first status of the map and has not told the server that its
-- player is ready tells it, over all packets of the game and all timers in any order, only when one of
-- the packets was a status by which the game has the whole map, of exactly the size of the
-- configuration: the download then stands at verified.
pub Plays-verified :
    (writes : Bool) (c : TransferConfig) (player_id : ℕ) (hash : Bytes → ℕ)
    (print : AgentLobbyMessage → Option Text) (sends : Bool) (g h : LobbyGame) (frames : List Frame)
    → g.remote_session.ready_sent ≡ false
    → g.map_transfer ≡ awaiting_status
    → Plays writes c player_id hash print sends g h frames
    → h.remote_session.ready_sent ≡ true
    → (h.map_transfer ≡ verified) × HasReport c frames
Plays-verified writes c player_id hash print sends g h frames silent awaits plays ready =
    let v =
      Plays-IsHonest writes c player_id hash print sends g h frames plays (record {
        honest = λ e. absurd (cc (silent, e));
        reported = λ e. absurd (cc (awaits, e));
      }) in
    (v.honest ready, v.reported (v.honest ready))
