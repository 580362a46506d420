-- ===== src/Link/Frames.antt =====
-- The frames of a running game, from the queue of the room to the events of an agent.
use strajer.Common.{
  Bool, ℕ, ◌+◌, ◌≤◌, ◌<◌, ◌≡◌, refl, sym, ap, List, [], ◌∷◌, ◌++◌, Option, some, ok, arith, All,
  length, map, append-nil, length-append, le→ltb,
}
use strajer.Common.Bytes.{Bytes, u16_max, u64_max, to_le_bytes, length-to_le_bytes}
use strajer.Common.Texts.{Text}
use strajer.Frame.{Frame, to_bytes}
use strajer.Frame.Shape.{IsFrame, length-to_bytes}
use strajer.Frame.RoundTrip.{decode_exact-to_bytes}
use strajer.Tunnel.Server
use strajer.Tunnel.Server.{ServerGameMessage}
use strajer.Tunnel.{encode_message, max_game_tunnel_message_bytes}
use strajer.Tunnel.RoundTrip.{IsMessage, Server-accepts, decode_message-encode_message}
use strajer.Game.{PlayerAction}
use strajer.Game.Groups.{concat}
use strajer.Game.Incoming
use strajer.Game.Incoming.{IncomingActionFrame}
use strajer.Game.Timeslots.{IsTimeslot}
use strajer.Protocol.Messages.{ServerLobbyMessage}
use strajer.Room.{Room, LobbyUpdate, game_frame}
use strajer.Room.Invariant.{IsRoom}
use strajer.Room.Play.{publish_pending_actions}
use strajer.Room.Timeslots.{numbered, pending_frames}
use strajer.Session
use strajer.Session.{encode_server_game_message}
use strajer.Session.Loop.{goes_on, on_update}
use strajer.Remote.{RemoteLobbySession, RemoteLobbyEvent, game}
use strajer.Remote.Incoming.{
  decode_server_game_message, handle_server_websocket_message, validate_active_server_game_message,
}
use strajer.Remote.Sessions.{yields, on_received}
use strajer.Link.{carry, relay_all, receive_all}

-- A truthful frame of at most 1,460 bytes that decodes.
record Travels (hash : Bytes → ℕ) (f : Frame) : Type 0 where
  truthful : IsFrame f
  short : f.frame_length ≤ 1460
  slot : IncomingActionFrame
  decodes : Incoming.decode hash f ≡ ok slot

module _ (hash : Bytes → ℕ) where
  IsTimeslot-Travels :
      (time : ℕ) (gs : List (List PlayerAction)) (fs : List Frame)
      → IsTimeslot hash time gs fs
      → All (Travels hash) fs
  IsTimeslot-Travels time [] fs h = absurd h
  IsTimeslot-Travels time (g ∷ gs) [] h = tt
  IsTimeslot-Travels time (g ∷ []) (f ∷ []) h =
      (record { truthful = h.0; short = h.1; slot = _; decodes = h.2 }, tt)
  IsTimeslot-Travels time (g ∷ []) (f ∷ f' ∷ fs) h = absurd h
  IsTimeslot-Travels time (g ∷ g' ∷ gs) (f ∷ fs) h = (
    record { truthful = h.0.0; short = h.0.1; slot = _; decodes = h.0.2 },
    IsTimeslot-Travels time (g' ∷ gs) fs h.1,
  )

-- The binary message for a frame under its number.
abbrev framed_message : ℕ → Frame → Session.Message
framed_message n f =
    Session.Message.binary (Server.encode (record { sequence = n; frame = to_bytes f }))

-- These under the numbers behind `n`.
abbrev framed_messages : ℕ → List Frame → List Session.Message
framed_messages n [] = []
framed_messages n (f ∷ fs) = framed_message (n + 1) f ∷ framed_messages (n + 1) fs

frame-IsMessage :
    (hash : Bytes → ℕ) (n : ℕ) (f : Frame)
    → Travels hash f
    → 0 < n
    → n ≤ u64_max
    → IsMessage n (to_bytes f)
frame-IsMessage hash n f h low high =
    omega (arith, length-to_bytes f h.truthful, h.truthful.exact, h.short)

module _ (print : ServerLobbyMessage → Option Text) where
  on_update_frame :
      (n : ℕ) (f : Frame)
      → IsMessage n (to_bytes f)
      → on_update print (game_frame n (to_bytes f))
        ≡ record { messages = framed_message n f ∷ []; outcome = ok goes_on }
  unfolding on_update encode_server_game_message
  on_update_frame n f h = rw (Server-accepts (record { sequence = n; frame = to_bytes f }) h) refl

  relay_frames :
      (hash : Bytes → ℕ) (n : ℕ) (fs : List Frame)
      → All (Travels hash) fs
      → n + length fs ≤ u64_max
      → relay_all print (numbered n fs)
        ≡ record { messages = framed_messages n fs; outcome = ok goes_on }
  unfolding relay_all
  relay_frames hash n [] h few = refl
  relay_frames hash n (f ∷ fs) h few =
      rw
        (
          on_update_frame (n + 1) f
              (frame-IsMessage hash (n + 1) f h.0 (omega arith) (omega arith)),
          relay_frames hash (n + 1) fs h.1 (omega arith),
        )
        refl

length-encode : (m : ServerGameMessage) → length (Server.encode m) ≡ 16 + length m.frame
unfolding Server.encode encode_message
length-encode m =
    omega (arith, length-append (to_le_bytes 8 m.sequence) m.frame, length-to_le_bytes 8 m.sequence)

decode-encode :
    (m : ServerGameMessage) → IsMessage m.sequence m.frame → Server.decode (Server.encode m) ≡ ok m
unfolding Server.decode Server.encode
decode-encode m h =
    rw (decode_message-encode_message 0x81 m.sequence m.frame h) (Server-accepts m h)

decode_server_game_message-encode :
    (hash : Bytes → ℕ) (n : ℕ) (f : Frame)
    → Travels hash f
    → IsMessage n (to_bytes f)
    → decode_server_game_message (Server.encode (record { sequence = n; frame = to_bytes f }))
      ≡ ok (game n f)
unfolding decode_server_game_message
decode_server_game_message-encode hash n f h m =
    let sent : ServerGameMessage = record { sequence = n; frame = to_bytes f } in
    rw
      (
        le→ltb max_game_tunnel_message_bytes (length (Server.encode sent))
            (omega (arith, length-encode sent)),
        decode-encode sent m,
        decode_exact-to_bytes f 1460 h.truthful h.short (omega arith),
      )
      refl

module _ (hash : Bytes → ℕ) (parse : Text → Option ServerLobbyMessage) (now : ℕ)
    (sends : Bool) where
  -- The session behind frames up to this number.
  abbrev up_to : ℕ → RemoteLobbySession → RemoteLobbySession
  up_to n s = record s { last_server_activity = now; last_received_game_sequence = n }

  receive_frame :
      (n : ℕ) (f : Frame) (s : RemoteLobbySession)
      → Travels hash f
      → s.last_received_game_sequence + 1 ≡ n
      → n ≤ u64_max
      → on_received hash parse sends (some (some (carry (framed_message n f)))) now s
        ≡ ok (yields (some (RemoteLobbyEvent.game_frame f)), up_to n s)
  unfolding on_received handle_server_websocket_message validate_active_server_game_message
  receive_frame n f s h next few =
      let sent =
        decode_server_game_message-encode hash n f h
          (frame-IsMessage hash n f h (omega arith) few) in
      rw (sent, append-nil s.sent, h.decodes) (ground arith)

  receive_frames :
      (n : ℕ) (fs : List Frame) (s : RemoteLobbySession)
      → All (Travels hash) fs
      → n + length fs ≤ u64_max
      → receive_all hash parse now sends (framed_messages n fs) (up_to n s)
        ≡ ok (map RemoteLobbyEvent.game_frame fs, up_to (n + length fs) s)
  unfolding receive_all
  receive_frames n [] s h few = ground arith
  receive_frames n (f ∷ fs) s h few =
      rw
        (
          receive_frame (n + 1) f (up_to n s) h.0 (omega arith) (omega arith),
          receive_frames (n + 1) fs s h.1 (omega arith),
        )
        (ground arith)

  receive_timeslot :
      (fs : List Frame) (s : RemoteLobbySession)
      → All (Travels hash) fs
      → 0 < length fs
      → s.last_received_game_sequence + length fs ≤ u64_max
      → receive_all hash parse now sends (framed_messages s.last_received_game_sequence fs) s
        ≡ ok (
          map RemoteLobbyEvent.game_frame fs,
          up_to (s.last_received_game_sequence + length fs) s,
        )
  unfolding receive_all
  receive_timeslot [] s h filled few = absurd (omega arith)
  receive_timeslot (f ∷ fs) s h filled few =
      let n : ℕ = s.last_received_game_sequence in
      rw
        (
          receive_frame (n + 1) f s h.0 refl (omega arith),
          receive_frames (n + 1) fs s h.1 (omega arith),
        )
        (ground arith)

IsTimeslot-length_pos :
    (hash : Bytes → ℕ) (time : ℕ) (gs : List (List PlayerAction)) (fs : List Frame)
    → IsTimeslot hash time gs fs
    → 0 < length fs
IsTimeslot-length_pos hash time [] fs h = absurd h
IsTimeslot-length_pos hash time (g ∷ gs) [] h = absurd h
IsTimeslot-length_pos hash time (g ∷ gs) (f ∷ fs) h = omega arith

-- From the queue of a room to the events of an agent: where the agent has taken the frames up to the number
-- that the room stands at, publishing the queue adds updates for which the server's loop sends
-- messages without failing, and the agent takes all these messages as the frames that were published, in
-- their order. They decode to exactly the queued actions, and the agent then stands at the
-- room's new number. The room satisfies its invariant and has numbers left.
pub actions_arrive :
    (hash : Bytes → ℕ) (print : ServerLobbyMessage → Option Text)
    (parse : Text → Option ServerLobbyMessage) (time now : ℕ) (sends : Bool) (r : Room)
    (s : RemoteLobbySession)
    → IsRoom r
    → time ≤ u16_max
    → r.state.gameplay_sequence + 1 + length r.state.pending_actions ≤ u64_max
    → s.last_received_game_sequence ≡ r.state.gameplay_sequence
    → (us : List LobbyUpdate) × (ms : List Session.Message) × (fs : List Frame) × (gs : List
        (List PlayerAction))
      × (s' : RemoteLobbySession) × ((publish_pending_actions hash time r).1.updates
          ≡ r.updates ++ us)
      × (relay_all print us ≡ record { messages = ms; outcome = ok goes_on })
      × (receive_all hash parse now sends ms s ≡ ok (map RemoteLobbyEvent.game_frame fs, s'))
      × (s'.last_received_game_sequence
          ≡ (publish_pending_actions hash time r).1.state.gameplay_sequence)
      × IsTimeslot hash time gs fs
      × (concat gs ≡ r.state.pending_actions)
actions_arrive hash print parse time now sends r s v t few at =
    let (fs, gs, slot, all, short, published) = pending_frames hash time r v t few in
    let travels = IsTimeslot-Travels hash time gs fs slot in
    let n : ℕ = r.state.gameplay_sequence in
    (
      numbered n fs,
      framed_messages n fs,
      fs,
      gs,
      up_to hash parse now sends (n + length fs) s,
      ap (λ p. p.1.updates) published,
      relay_frames print hash n fs travels (omega arith),
      rw (sym at) (
          receive_timeslot hash parse now sends fs s travels
            (IsTimeslot-length_pos hash time gs fs slot) (omega arith)),
      sym (ap (λ p. p.1.state.gameplay_sequence) published),
      slot,
      all,
    )
