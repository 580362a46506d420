-- ===== src/Tests/Departures.antt =====
-- A room whose game starts, and the player who then leaves it; and one whose countdown is cancelled.
use strajer.Common.{
  ℕ, ◌-◌, ◌≡◌, refl, false, true, List, [], ◌∷◌, ◌++◌, Option, none, some, ok, arith,
}
use mathlib.Core.Path.{subst}
use strajer.Common.Bytes.{Bytes}
use strajer.Common.Texts.{Text}
use strajer.Protocol.{LobbyPlayer, LobbyRoster, disconnect}
use strajer.Protocol.Messages.{ServerLobbyMessage}
use strajer.Room.{
  Room, LobbyUpdate, ConnectedPlayer, Task, send, start, run_countdown, default_countdown_policy,
  default_gameplay_policy, new_with_policies,
}
use strajer.Room.Players.{get, insert, modify, remove}
use strajer.Room.State
use strajer.Room.State.{
  can_start_automatic_countdown, can_start_requested_countdown, countdown_matches, reset_game,
}
use strajer.Room.Actions.{◌>>=◌}
use strajer.Room.Lobby.{join, first_free, mark_ready, begin_countdown, spawn_countdown}
use strajer.Room.Play.{leave, remove_player, after_departure, begin_gameplay_if_ready}
use strajer.Room.Tasks.{joins, readies, leaves, call, countdown_step, Reach, here, next, calls}
use strajer.Room.Tasks.Countdown.{begun, ticks, countdown-Reach}
use strajer.Room.News.Cancelled.{countdown_step_cancelled}
use strajer.Session
use strajer.Session.{encode_server_message}
use strajer.Session.Loop.{on_update}
use strajer.Remote.{RemoteLobbyEvent}
use strajer.Remote.Sessions.{yields, on_received}
use strajer.Link.Control.{Saying}
use strajer.Link.Control.Arrivals.{control_arrives}
use strajer.Tests.Games.{sum}
use strajer.Tests.Rooms.{ann, bob, opened, bob_valid}
use strajer.Tests.Updates.{counting, counting-Reach, watching}

Reach-trans : (hash : Bytes → ℕ) (r s t : Room) → Reach hash r s → Reach hash s t → Reach hash r t
Reach-trans hash r s _ first here = first
Reach-trans hash r s _ first (next {s = m} before step) =
    next (Reach-trans hash r s m first before) step

abbrev waiting_player : ℕ → Text → ConnectedPlayer
waiting_player session name = record {
  session_id = session;
  name = name;
  ready = true;
  loaded = false;
  last_chat = none;
  last_game_sequence = 0;
  checksums = [];
}

abbrev listed_player : ℕ → Text → LobbyPlayer
listed_player k name = record { player_id = k; slot_index = k - 1; name = name }

abbrev rosters : List Task
rosters =
    send (LobbyUpdate.roster (record { revision = 2; players = listed_player 1 ann ∷ [] }))
    ∷ send (
        LobbyUpdate.roster
          (record { revision = 3; players = listed_player 1 ann ∷ listed_player 2 bob ∷ [] }))
    ∷ []

-- The room in which both players are ready.
abbrev counted : Room
counted = record {
  maximum_players = 2;
  countdown_policy = default_countdown_policy;
  gameplay_policy = default_gameplay_policy;
  state = record {
    manual_start_requested = false;
    started = false;
    gameplay_active = false;
    game_ended = false;
    gameplay_generation = 0;
    gameplay_sequence = 0;
    pending_actions = [];
    pending_action_bytes = 0;
    revision = 3;
    next_session_id = 3;
    players = (1, waiting_player 1 ann) ∷ (2, waiting_player 2 bob) ∷ [];
    countdown_generation = 1;
    countdown_active = true;
    countdown_remaining_seconds = some 60;
  };
  updates = LobbyUpdate.countdown 60 ∷ [];
  tasks = rosters ++ (run_countdown 1 60 ∷ []);
}

counting-lem : counting ≡ counted
unfolding call join first_free mark_ready begin_countdown spawn_countdown State.roster
    can_start_automatic_countdown can_start_requested_countdown insert modify ◌>>=◌
    new_with_policies
counting-lem = refl

counted-matches : countdown_matches counted.state 1 ≡ true
unfolding countdown_matches
counted-matches = refl

counted-Reach : Reach sum opened counted
counted-Reach = subst (Reach sum opened) counting-lem counting-Reach

abbrev started_room : Room
started_room = begun (ticks 10 5 ++ (start ∷ [])) (record counted { tasks = rosters ++ [] })

started-Reach : Reach sum opened started_room
started-Reach =
    Reach-trans sum opened counted _ counted-Reach
      (countdown-Reach sum 5 1 rosters [] counted (omega arith) refl counted-matches)

abbrev left_room : Room
left_room = call sum (leaves 2 2 disconnect) started_room

abbrev remaining_roster : LobbyRoster
remaining_roster = record { revision = 4; players = listed_player 1 ann ∷ [] }

left-updates :
    left_room.updates
    ≡ started_room.updates ++ ([] ++ (LobbyUpdate.player_left 2 disconnect remaining_roster ∷ []))
unfolding call leave remove_player after_departure State.roster remove ◌>>=◌
left-updates = refl

left-player : get 1 left_room.state.players ≡ some (waiting_player 1 ann)
unfolding call leave remove_player after_departure remove ◌>>=◌
left-player = refl

-- A codec of this departure and of the starts alone: a roster of one player by its numbers and name.
abbrev print_roster : ℕ → ℕ → List LobbyPlayer → Option Text
print_roster k n [] = none
print_roster k n (p ∷ []) = some (k ∷ n ∷ p.player_id ∷ p.slot_index ∷ p.name)
print_roster k n (p ∷ q ∷ ps) = none

abbrev print_departure : ServerLobbyMessage → Option Text
print_departure (ServerLobbyMessage.player_left k disconnect left) =
    print_roster k left.revision left.players
print_departure _ = none

abbrev parse_departure : Text → Option ServerLobbyMessage
parse_departure (k ∷ n ∷ i ∷ j ∷ name) = some (
    ServerLobbyMessage.player_left k disconnect (record {
      revision = n;
      players = record { player_id = i; slot_index = j; name = name } ∷ [];
    }))
parse_departure _ = none

print_roster-parse :
    (k : ℕ) (left : LobbyRoster) (ps : List LobbyPlayer) (t : Text)
    → left.players ≡ ps
    → print_roster k left.revision ps ≡ some t
    → parse_departure t ≡ some (ServerLobbyMessage.player_left k disconnect left)
print_roster-parse k left [] t e h = absurd (cc h)
print_roster-parse k left (p ∷ []) t e h = ground arith
print_roster-parse k left (p ∷ q ∷ ps) t e h = absurd (cc h)

departure_codec :
    (m : ServerLobbyMessage) (t : Text) → print_departure m ≡ some t → parse_departure t ≡ some m
departure_codec (ServerLobbyMessage.player_left k disconnect left) t h =
    print_roster-parse k left left.players t refl h
departure_codec _ t h = absurd (cc h)

abbrev departure : Saying
departure = record {
  message = ServerLobbyMessage.player_left 2 disconnect remaining_roster;
  event = RemoteLobbyEvent.player_left 2 disconnect remaining_roster;
}

abbrev departure_message : Session.Message
departure_message = Session.Message.text (2 ∷ 4 ∷ 1 ∷ 0 ∷ ann)

departure_encoded : encode_server_message print_departure departure.message ≡ ok departure_message
unfolding encode_server_message
departure_encoded = refl

control_arrives_example :
    ((on_update print_departure (LobbyUpdate.player_left 2 disconnect remaining_roster)).messages
      ≡ departure_message ∷ [])
    × (on_received sum parse_departure false
          (some (some (strajer.Link.carry departure_message)))
          5
          watching
        ≡ ok (yields (some departure.event), record watching { last_server_activity = 5 }))
control_arrives_example =
    control_arrives print_departure parse_departure departure_codec sum 1 2 default_gameplay_policy
      started_room left_room [] [] (LobbyUpdate.player_left 2 disconnect remaining_roster) departure
      watching (waiting_player 1 ann) 5 false departure_message (omega arith) (omega arith)
      (omega arith) (omega arith) started-Reach (calls (leaves 2 2 disconnect) tt) left-updates
      left-player refl refl departure_encoded

-- The countdown is cancelled, and another begins.
abbrev cancelled : Room
cancelled = call sum (leaves 2 2 disconnect) counted

abbrev again : Room
again = call sum (readies 2 3) (call sum (joins bob) cancelled)

cancelled-idle : cancelled.state.countdown_active ≡ false
unfolding call leave remove_player after_departure begin_gameplay_if_ready remove ◌>>=◌
cancelled-idle = refl

cancelled-generation : cancelled.state.countdown_generation ≡ 1
unfolding call leave remove_player after_departure begin_gameplay_if_ready remove ◌>>=◌
cancelled-generation = refl

again_test : again.state.countdown_active ≡ true
unfolding call leave remove_player after_departure begin_gameplay_if_ready remove ◌>>=◌ join
    first_free mark_ready begin_countdown spawn_countdown State.roster can_start_automatic_countdown
    can_start_requested_countdown insert modify
again_test = refl

countdown_step_cancelled_example : countdown_step 1 60 again ≡ (ok tt, again)
countdown_step_cancelled_example =
    countdown_step_cancelled sum 1 60 cancelled again cancelled-idle
      (omega (arith, cancelled-generation))
      (next (next here (calls (joins bob) bob_valid)) (calls (readies 2 3) tt))
