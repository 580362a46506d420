-- ===== src/Tests/Rooms.antt =====
-- Rooms: a lobby of two, its countdown, and a running game.
use strajer.Common.{
  ℕ, ◌+◌, ◌≡◌, refl, true, false, List, [], ◌∷◌, ◌++◌, none, some, ok, arith, length,
}
use strajer.Common.Texts.{Text}
use strajer.Protocol.{validate_lobby_player_name, disconnect, desync}
use strajer.Frame.{Frame}
use strajer.Game.{PlayerAction}
use strajer.Game.Groups.{concat}
use strajer.Game.Timeslots.{IsTimeslot}
use strajer.Room.{
  Room, ConnectedPlayer, LobbyRoomState, default_countdown_policy, default_gameplay_policy,
  new_with_policies, start, run_countdown, end_game,
}
use strajer.Room.Consensus.{consume_checksum_consensus}
use strajer.Room.Consensus.Agreement.{Verdict, consume_checksum_consensus_lem}
use strajer.Room.State.{countdown_matches}
use strajer.Room.Lobby.{join}
use strajer.Room.Play.{submit_action, submit_keepalive, publish_pending_actions}
use strajer.Room.Tasks.{joins, readies, leaves, call, Reach, here, next, calls}
use strajer.Room.Tasks.Countdown.{begun, ticks, countdown-Reach}
use strajer.Room.Invariant.{IsRoom, new_with_policies-IsRoom}
use strajer.Room.Invariant.Reachable.{reachable-IsRoom}
use strajer.Room.Outcomes.Joins.{JoinOutcome, join_lem}
use strajer.Room.Outcomes.Submissions.{ActionOutcome, submit_action_lem}
use strajer.Room.Outcomes.Reports.{KeepaliveOutcome, submit_keepalive_lem}
use strajer.Room.Timeslots.{numbered, publish_pending_actions_lem}
use strajer.Tests.Games.{
  sum, first_action, second_action, first_action-IsAction, second_action-IsAction,
}

abbrev pub ann : Text
ann = b'a' ∷ b'n' ∷ b'n' ∷ []

abbrev pub bob : Text
bob = b'b' ∷ b'o' ∷ b'b' ∷ []

pub ann_valid : validate_lobby_player_name ann ≡ ok tt
unfolding validate_lobby_player_name
ann_valid = refl

pub bob_valid : validate_lobby_player_name bob ≡ ok tt
unfolding validate_lobby_player_name
bob_valid = refl

abbrev pub opened : Room
opened = new_with_policies 1 2 default_countdown_policy default_gameplay_policy

abbrev pub duel : Room
duel = call sum (joins bob) (call sum (joins ann) opened)

abbrev pub abandoned : Room
abandoned = call sum (leaves 1 1 disconnect) (call sum (readies 1 1) duel)

pub opened-IsRoom : IsRoom opened
opened-IsRoom = new_with_policies-IsRoom 1 2 default_countdown_policy default_gameplay_policy

pub duel-Reach : Reach sum opened abandoned
duel-Reach =
    next
      (next (next (next here (calls (joins ann) ann_valid)) (calls (joins bob) bob_valid))
        (calls (readies 1 1) tt))
      (calls (leaves 1 1 disconnect) tt)

reachable-IsRoom_example : IsRoom abandoned
reachable-IsRoom_example =
    reachable-IsRoom sum 1 2 default_countdown_policy default_gameplay_policy abandoned duel-Reach

join_lem_example : JoinOutcome bob opened (join bob opened).0 (join bob opened).1
join_lem_example = join_lem bob opened

abbrev playing_ann : ConnectedPlayer
playing_ann = record {
  session_id = 1;
  name = ann;
  ready = true;
  loaded = true;
  last_chat = none;
  last_game_sequence = 4;
  checksums = 5 ∷ 6 ∷ [];
}

abbrev pub playing_bob : ConnectedPlayer
playing_bob = record {
  session_id = 2;
  name = bob;
  ready = true;
  loaded = true;
  last_chat = none;
  last_game_sequence = 3;
  checksums = 5 ∷ 7 ∷ 8 ∷ [];
}

abbrev two_players : List (ℕ × ConnectedPlayer)
two_players = (1, playing_ann) ∷ (2, playing_bob) ∷ []

abbrev playing_state : LobbyRoomState
playing_state = record {
  revision = 3;
  next_session_id = 3;
  players = two_players;
  countdown_generation = 1;
  countdown_active = false;
  countdown_remaining_seconds = none;
  manual_start_requested = false;
  started = true;
  gameplay_active = true;
  game_ended = false;
  gameplay_generation = 1;
  gameplay_sequence = 9;
  pending_actions = first_action ∷ second_action ∷ [];
  pending_action_bytes = 9;
}

abbrev pub playing_room : Room
playing_room = record {
  maximum_players = 2;
  countdown_policy = default_countdown_policy;
  gameplay_policy = default_gameplay_policy;
  state = playing_state;
  updates = [];
  tasks = [];
}

pub playing_room-IsRoom : IsRoom playing_room
playing_room-IsRoom = record {
  table = record { above = omega arith; entries = omega arith; distinct = ground arith };
  phase = ground arith;
  pending = record {
    counted = refl;
    few = omega arith;
    small = omega arith;
    valid = (first_action-IsAction, (second_action-IsAction, tt));
    idle = refl;
  };
}

consume_checksum_consensus_lem_example :
    Verdict two_players (consume_checksum_consensus two_players)
consume_checksum_consensus_lem_example = consume_checksum_consensus_lem two_players

disagreement_test : (consume_checksum_consensus two_players).0 ≡ true
unfolding consume_checksum_consensus strajer.Room.Consensus.consume_loop
    strajer.Room.Consensus.first_checksum
disagreement_test = refl

submit_action_lem_example :
    ActionOutcome 1 1 5 first_action playing_room
      (submit_action 1 1 5 first_action playing_room).0
      (submit_action 1 1 5 first_action playing_room).1
submit_action_lem_example = submit_action_lem 1 1 5 first_action playing_room

submit_keepalive_lem_example :
    KeepaliveOutcome 1 1 5 7 playing_room
      (submit_keepalive 1 1 5 7 playing_room).0
      (submit_keepalive 1 1 5 7 playing_room).1
submit_keepalive_lem_example = submit_keepalive_lem 1 1 5 7 playing_room

publish_pending_actions_lem_example :
    (fs : List Frame) × (gs : List (List PlayerAction)) × IsTimeslot sum 100 gs fs
    × (concat gs ≡ first_action ∷ second_action ∷ [])
    × (publish_pending_actions sum 100 playing_room ≡ (
      ok tt,
      record playing_room {
        state = record playing_state {
          pending_actions = [];
          pending_action_bytes = 0;
          gameplay_sequence = 9 + length fs;
        };
        updates = [] ++ numbered 9 fs;
      },
    ))
publish_pending_actions_lem_example =
    publish_pending_actions_lem sum 100 playing_room playing_room-IsRoom (omega arith) (omega arith)

abbrev counting_room : Room
counting_room = record playing_room {
  state = record playing_state {
    started = false;
    gameplay_active = false;
    countdown_active = true;
    countdown_remaining_seconds = some 30;
    pending_actions = [];
    pending_action_bytes = 0;
  };
  tasks = end_game desync ∷ run_countdown 1 30 ∷ [];
}

counting_room-matches : countdown_matches counting_room.state 1 ≡ true
unfolding countdown_matches
counting_room-matches = refl

countdown-Reach_example :
    Reach sum counting_room
      (begun (ticks 10 2 ++ (start ∷ [])) (record counting_room { tasks = end_game desync ∷ [] }))
countdown-Reach_example =
    countdown-Reach sum 2 1 (end_game desync ∷ []) [] counting_room (omega arith) refl
      counting_room-matches
