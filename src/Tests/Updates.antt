-- ===== src/Tests/Updates.antt =====
-- A room that counts down, and an agent in it.
use strajer.Common.{false, [], arith, All}
use strajer.Room.{Room, default_gameplay_policy}
use strajer.Room.Published.{Fits}
use strajer.Room.Published.Steps.{Reach-Fits}
use strajer.Room.Tasks.{joins, readies, call, Reach, here, next, calls}
use strajer.Remote.{RemoteLobbySession}
use strajer.Tests.Games.{sum}
use strajer.Tests.Rooms.{ann, bob, opened, duel, ann_valid, bob_valid}

abbrev pub counting : Room
counting = call sum (readies 2 2) (call sum (readies 1 1) duel)

pub counting-Reach : Reach sum opened counting
counting-Reach =
    next
      (next (next (next here (calls (joins ann) ann_valid)) (calls (joins bob) bob_valid))
        (calls (readies 1 1) tt))
      (calls (readies 2 2) tt)

Reach-Fits_example : All (Fits 2) counting.updates
Reach-Fits_example =
    Reach-Fits sum 1 2 default_gameplay_policy counting (omega arith) (omega arith) (omega arith)
      (omega arith) counting-Reach

abbrev pub watching : RemoteLobbySession
watching = record {
  assigned_player_id = 1;
  initial_roster = record { revision = 2; players = [] };
  maximum_players = 2;
  last_server_activity = 0;
  ready_sent = false;
  loaded_sent = false;
  last_sent_game_sequence = 0;
  last_received_game_sequence = 0;
  sent = [];
}
