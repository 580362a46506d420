-- ===== src/Tests/Sessions.antt =====
-- Sessions: a player who joins, plays and leaves, and the agent on the other side.
use strajer.Common.{
  ◌≤◌, ◌≡◌, refl, true, List, [], ◌∷◌, ◌++◌, Option, none, some, ok, arith, map, All, ◌<◌, ◌==◌,
  if◌then◌else◌,
}
use strajer.Common.Bytes.{Bytes, u8_max}
use strajer.Common.Texts.{Text}
use strajer.Frame.{Frame}
use strajer.Frame.Shape.{framed, framed-IsFrame}
use strajer.Game.{PlayerAction}
use strajer.Game.Groups.{concat}
use strajer.Game.Timeslots.{IsTimeslot}
use strajer.Protocol.{validate_lobby_player_name}
use strajer.Protocol.Messages.{
  AgentLobbyMessage, ServerLobbyMessage, validate_message, join_player_name,
  validate_lobby_session_protocol_version,
}
use strajer.Room.{LobbyUpdate, new_with_policies}
use strajer.Room.Players.{insert}
use strajer.Room.Rosters.{IsNamed}
use strajer.Room.Lobby.{LobbyMembership, join, first_free}
use strajer.Room.Play.{publish_pending_actions}
use strajer.Room.State
use strajer.Room.Actions.{◌>>=◌}
use strajer.Room.Tasks.{Reach}
use strajer.Room.Invariant.{IsRoom}
use strajer.Room.Outcomes.Cleanups.{CleanedUp}
use strajer.Session
use strajer.Session.{receive_join_message, encode_server_message}
use strajer.Session.Calls.{Driven, on_message-Driven}
use strajer.Session.Handlers.{handle_active_agent_game_message, handle_game_frame}
use strajer.Session.Loop.{goes_on, on_message, on_update}
use strajer.Session.Serving.{Member, connected, closed, World, opens, ends, serve, joined_message}
use strajer.Session.Serving.Steps.{InPlaces}
use strajer.Session.Serving.Sessions.{
  Trace, begins, handles, new_world, served-Reach, closed-CleanedUp,
}
use strajer.Remote
use strajer.Remote.{RemoteLobbySession, RemoteLobbyEvent, control}
use strajer.Remote.Incoming.{accept_joined}
use strajer.Remote.Sessions.{send_game_frame}
use strajer.Link.{relay_all, receive_all}
use strajer.Link.Frames.{actions_arrive}
use strajer.Link.Joining.{accepted, join_arrives}
use strajer.Link.Actions.{frame_arrives}
use strajer.Tests.Games.{sum, first_action, second_action}
use strajer.Tests.Rooms.{ann, opened, opened-IsRoom, playing_room, playing_room-IsRoom, ann_valid}

-- A codec for the tests: the letter j and a name is a join, anything else says that the player is ready.
abbrev parse_agent : Text → Option AgentLobbyMessage
parse_agent [] = none
parse_agent (c ∷ name) =
    if c == b'j' then some (AgentLobbyMessage.join 5 name) else some (AgentLobbyMessage.ready 5)

abbrev print_server : ServerLobbyMessage → Option Text
print_server m = some (b'{' ∷ b'}' ∷ [])

abbrev parse_server : Text → Option ServerLobbyMessage
parse_server t = some ServerLobbyMessage.start

abbrev print_agent : AgentLobbyMessage → Option Text
print_agent m = some (b'{' ∷ b'}' ∷ [])

on_message-Driven_example :
    Driven sum 1 1 playing_room
      (on_message sum parse_agent print_server 1 1 0
        (Session.Message.text (b'r' ∷ []))
        playing_room).1
on_message-Driven_example =
    on_message-Driven sum parse_agent print_server 1 1 0 (Session.Message.text (b'r' ∷ []))
      playing_room (omega arith) tt

abbrev world : World
world = new_world opened

abbrev joining : Option Session.Message
joining = some (Session.Message.text (b'j' ∷ ann))

abbrev in_lobby : World
in_lobby = serve sum parse_agent print_server (opens joining 0) world

in_lobby-Trace : Trace sum parse_agent print_server world in_lobby
in_lobby-Trace = handles (opens joining 0) tt begins

opened_small : opened.maximum_players ≤ u8_max
unfolding new_with_policies
opened_small = omega arith

served-Reach_example :
    Reach sum opened in_lobby.room
    × IsRoom in_lobby.room
    × InPlaces opened.maximum_players in_lobby.phase
served-Reach_example =
    served-Reach sum parse_agent print_server opened opened-IsRoom opened_small in_lobby
      in_lobby-Trace

abbrev member : Member
member = record { player_id = 1; session_id = 1; cursor = 0; last_client_activity = 0 }

in_lobby-connected : in_lobby.phase ≡ connected member
unfolding serve receive_join_message join first_free State.roster insert ◌>>=◌ encode_server_message
    new_with_policies validate_message join_player_name validate_lobby_session_protocol_version
    validate_lobby_player_name
in_lobby-connected = refl

in_lobby-closed : (serve sum parse_agent print_server ends in_lobby).phase ≡ closed
unfolding serve
in_lobby-closed = rw in_lobby-connected refl

closed-CleanedUp_example : CleanedUp 1 1 (serve sum parse_agent print_server ends in_lobby).room
closed-CleanedUp_example =
    closed-CleanedUp sum parse_agent print_server opened opened-IsRoom opened_small in_lobby member
      ends in_lobby-Trace in_lobby-connected tt in_lobby-closed

abbrev agent : RemoteLobbySession
agent = record {
  assigned_player_id = 1;
  initial_roster = record { revision = 1; players = [] };
  maximum_players = 2;
  last_server_activity = 0;
  ready_sent = true;
  loaded_sent = true;
  last_sent_game_sequence = 4;
  last_received_game_sequence = 9;
  sent = [];
}

actions_arrive_example :
    (us : List LobbyUpdate) × (ms : List Session.Message) × (fs : List Frame) × (gs : List
      (List PlayerAction))
    × (s' : RemoteLobbySession) × ((publish_pending_actions sum 100 playing_room).1.updates
        ≡ [] ++ us)
    × (relay_all print_server us ≡ record { messages = ms; outcome = ok goes_on })
    × (receive_all sum parse_server 7 true ms agent ≡ ok (map RemoteLobbyEvent.game_frame fs, s'))
    × (s'.last_received_game_sequence
        ≡ (publish_pending_actions sum 100 playing_room).1.state.gameplay_sequence)
    × IsTimeslot sum 100 gs fs
    × (concat gs ≡ first_action ∷ second_action ∷ [])
actions_arrive_example =
    actions_arrive sum print_server parse_server 100 7 true playing_room agent playing_room-IsRoom
      (omega arith) (omega arith) refl

abbrev admission : LobbyMembership
admission = record {
  player_id = 1;
  session_id = 1;
  roster = record {
    revision = 2;
    players = record { player_id = 1; slot_index = 0; name = ann } ∷ [];
  };
  updates = 0;
}

opened-admits : (join ann opened).0 ≡ ok admission
unfolding join first_free State.roster insert ◌>>=◌ new_with_policies
opened-admits = refl

opened_places : 0 < opened.maximum_players
unfolding new_with_policies
opened_places = omega arith

opened_most : opened.maximum_players ≤ 24
unfolding new_with_policies
opened_most = omega arith

opened_names : All IsNamed opened.state.players
unfolding new_with_policies
opened_names = tt

join_arrives_example :
    accept_joined opened.maximum_players ann 3 [] (control (joined_message admission))
    ≡ ok (accepted opened admission 3 [])
join_arrives_example =
    join_arrives opened ann admission opened-IsRoom opened_places opened_most opened_names ann_valid
      3 [] opened-admits

abbrev keepalive : Frame
keepalive = framed 0x27 (1 ∷ 5 ∷ 0 ∷ 0 ∷ 0 ∷ [])

frame_arrives_example :
    (payload : Bytes) × (send_game_frame print_agent true keepalive agent ≡ (
      ok tt,
      record agent {
        last_sent_game_sequence = 5;
        sent = [] ++ (Remote.Message.binary payload ∷ []);
      },
    ))
    × (handle_active_agent_game_message sum 1 1 payload playing_room
        ≡ handle_game_frame sum 1 1 5 keepalive playing_room)
frame_arrives_example =
    frame_arrives keepalive
      (framed-IsFrame 0x27 (1 ∷ 5 ∷ 0 ∷ 0 ∷ 0 ∷ []) (omega arith) (omega arith) (omega arith))
      (omega arith) sum print_agent 1 1 agent playing_room (omega arith)

abbrev sent_test : List Session.Message
sent_test = Session.Message.text (b'{' ∷ b'}' ∷ []) ∷ Session.Message.text (b'{' ∷ b'}' ∷ []) ∷ []

relayed_test :
    (relay_all print_server (LobbyUpdate.start ∷ LobbyUpdate.player_loaded 2 ∷ [])).messages
    ≡ sent_test
unfolding relay_all on_update encode_server_message
relayed_test = refl
