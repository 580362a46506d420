-- ===== src/Room/Settings/Steps.antt =====
-- The places and the policies of a room never change.
use strajer.Common.{
  ℕ, refl, ◌∙◌, Bool, true, false, List, [], ◌∷◌, ◌++◌, Option, none, some, Result, ok, err, ok_or,
  checked_add,
}
use strajer.Common.Bytes.{Bytes, u64_max}
use strajer.Common.Texts.{Text}
use strajer.Frame.{Frame, to_bytes}
use strajer.Protocol.{LobbyLeaveReason, GameEndReason}
use strajer.Game.{PlayerAction}
use strajer.Room.{
  Room, Task, send, end_game, run_countdown, run_gameplay, last_player_game_over,
  LobbyMembershipError, LobbyUpdate, gameplay_sequence_exhausted,
}
use strajer.Room.Actions.{Action, from, ◌>>=◌, ◌>>◌, get_state, put_state, broadcast}
use strajer.Room.Lobby.{
  join, begin_countdown, spawn_countdown, mark_ready, publish_chat, request_manual_start,
}
use strajer.Room.Play.{
  begin_gameplay_if_ready, spawn_gameplay, mark_loaded, submit_action, submit_keepalive,
  finish_game, publish_frames, remove_player, after_departure, publish_pending_actions,
  publish_gameplay_tick, leave,
}
use strajer.Room.Tasks.{
  publish_countdown_tick, finish_countdown, countdown_step, after_tick, gameplay_step,
  game_over_step, run_task, Call, call, joins, readies, loads, requests_start, acts, keeps_alive,
  chats, leaves, Step, calls, runs, Reach, here, next,
}
use strajer.Room.Settings.{SameSettings, Keeps, keeping, pure_kept, spawn_kept}

join-Keeps : (player_name : Text) → Keeps (join player_name)
unfolding join
join-Keeps player_name = search keeping depth 40 fits 3000

begin_countdown-Keeps : Keeps begin_countdown
unfolding begin_countdown
begin_countdown-Keeps = search keeping depth 40 fits 3000

spawn_countdown-Keeps : (generation : ℕ) → Keeps (spawn_countdown generation)
unfolding spawn_countdown
spawn_countdown-Keeps generation = search keeping depth 40 fits 3000

mark_ready-Keeps : (player_id session_id : ℕ) → Keeps (mark_ready player_id session_id)
unfolding mark_ready
mark_ready-Keeps player_id session_id =
    search (keeping, begin_countdown-Keeps, spawn_countdown-Keeps) depth 40 fits 3000

publish_chat-Keeps :
    (player_id session_id : ℕ) (message : Text) (now : ℕ)
    → Keeps (publish_chat player_id session_id message now)
unfolding publish_chat
publish_chat-Keeps player_id session_id message now = search keeping depth 40 fits 3000

request_manual_start-Keeps :
    (player_id session_id : ℕ) → Keeps (request_manual_start player_id session_id)
unfolding request_manual_start
request_manual_start-Keeps player_id session_id =
    search (keeping, begin_countdown-Keeps, spawn_countdown-Keeps) depth 40 fits 3000

begin_gameplay_if_ready-Keeps : Keeps begin_gameplay_if_ready
unfolding begin_gameplay_if_ready
begin_gameplay_if_ready-Keeps = search keeping depth 40 fits 3000

spawn_gameplay-Keeps : (o : Option ℕ) → Keeps (spawn_gameplay o)
spawn_gameplay-Keeps none = pure_kept tt
spawn_gameplay-Keeps (some generation) = spawn_kept (run_gameplay generation)

mark_loaded-Keeps : (player_id session_id : ℕ) → Keeps (mark_loaded player_id session_id)
unfolding mark_loaded
mark_loaded-Keeps player_id session_id =
    search (keeping, begin_gameplay_if_ready-Keeps, spawn_gameplay-Keeps) depth 40 fits 3000

submit_action-Keeps :
    (player_id session_id sequence : ℕ) (action : PlayerAction)
    → Keeps (submit_action player_id session_id sequence action)
unfolding submit_action
submit_action-Keeps player_id session_id sequence action = search keeping depth 40 fits 3000

submit_keepalive-Keeps :
    (player_id session_id sequence checksum : ℕ)
    → Keeps (submit_keepalive player_id session_id sequence checksum)
unfolding submit_keepalive
submit_keepalive-Keeps player_id session_id sequence checksum = search keeping depth 40 fits 3000

finish_game-Keeps : (reason : GameEndReason) → Keeps (finish_game reason)
unfolding finish_game
finish_game-Keeps reason = search keeping depth 40 fits 3000

publish_frame-Keeps :
    (f : Frame) (rest : Action LobbyMembershipError (Unit {0}))
    → Keeps rest
    → Keeps (do
      s ← get_state
      sequence ←
          from (ok_or (checked_add u64_max s.gameplay_sequence 1) gameplay_sequence_exhausted)
      put_state (record s { gameplay_sequence = sequence })
      broadcast (LobbyUpdate.game_frame sequence (to_bytes f))
      rest)
publish_frame-Keeps f rest h = search keeping depth 40 fits 3000

publish_frames-Keeps : (fs : List Frame) → Keeps (publish_frames fs)
unfolding publish_frames
publish_frames-Keeps [] = record { keeps = λ r. (refl, refl, refl) }
publish_frames-Keeps (f ∷ fs) = record {
  keeps = (publish_frame-Keeps f (publish_frames fs) (publish_frames-Keeps fs)).keeps;
}

remove_player-Keeps :
    (player_id : ℕ) (reason : LobbyLeaveReason) → Keeps (remove_player player_id reason)
unfolding remove_player
remove_player-Keeps player_id reason = search keeping depth 40 fits 3000

after_departure-Keeps : (started : Bool) → Keeps (after_departure started)
unfolding after_departure
after_departure-Keeps started =
    search (keeping, begin_gameplay_if_ready-Keeps, spawn_gameplay-Keeps) depth 40 fits 3000

publish_countdown_tick-Keeps :
    (generation left : ℕ) → Keeps (publish_countdown_tick generation left)
unfolding publish_countdown_tick
publish_countdown_tick-Keeps generation left = search keeping depth 40 fits 3000

finish_countdown-Keeps : (generation : ℕ) → Keeps (finish_countdown generation)
unfolding finish_countdown
finish_countdown-Keeps generation = search keeping depth 40 fits 3000

countdown_step-Keeps : (generation remaining : ℕ) → Keeps (countdown_step generation remaining)
unfolding countdown_step
countdown_step-Keeps generation remaining =
    search (keeping, publish_countdown_tick-Keeps, finish_countdown-Keeps) depth 40 fits 3000

game_over_step-Keeps : (generation : ℕ) → Keeps (game_over_step generation)
unfolding game_over_step
game_over_step-Keeps generation = search keeping depth 40 fits 3000

module _ (hash : Bytes → ℕ) where
  publish_pending_actions-Keeps : (time : ℕ) → Keeps (publish_pending_actions hash time)
  unfolding publish_pending_actions
  publish_pending_actions-Keeps time = search (keeping, publish_frames-Keeps) depth 40 fits 3000

  publish_gameplay_tick-Keeps : (generation : ℕ) → Keeps (publish_gameplay_tick hash generation)
  unfolding publish_gameplay_tick
  publish_gameplay_tick-Keeps generation =
      search (keeping, publish_pending_actions-Keeps) depth 40 fits 3000

  leave-Keeps :
      (player_id session_id : ℕ) (reason : LobbyLeaveReason)
      → Keeps (leave hash player_id session_id reason)
  unfolding leave
  leave-Keeps player_id session_id reason =
      search (keeping, publish_pending_actions-Keeps, remove_player-Keeps, after_departure-Keeps)
        depth 40 fits 3000

  after_tick-Keeps :
      (generation : ℕ) (x : Result LobbyMembershipError Bool) → Keeps (after_tick generation x)
  after_tick-Keeps generation (ok true) = search keeping
  after_tick-Keeps generation (ok false) = search keeping
  after_tick-Keeps generation (err e) = search keeping

  gameplay_step-Keeps : (generation : ℕ) → Keeps (gameplay_step hash generation)
  unfolding gameplay_step
  gameplay_step-Keeps generation = record {
    keeps = λ r.
        let ticked = (publish_gameplay_tick-Keeps generation).keeps r in
        let after =
          (after_tick-Keeps generation (publish_gameplay_tick hash generation r).0).keeps _ in
        (after.0 ∙ ticked.0, after.1 ∙ ticked.1, after.2 ∙ ticked.2);
  }

  run_task-SameSettings : (t : Task) (r : Room) → SameSettings r (run_task hash t r)
  unfolding run_task
  run_task-SameSettings (send u) r = (refl, refl, refl)
  run_task-SameSettings (end_game reason) r = (finish_game-Keeps reason).keeps r
  run_task-SameSettings (run_countdown generation remaining) r =
      (countdown_step-Keeps generation remaining).keeps r
  run_task-SameSettings (run_gameplay generation) r = (gameplay_step-Keeps generation).keeps r
  run_task-SameSettings (last_player_game_over generation) r =
      (game_over_step-Keeps generation).keeps r

  call-SameSettings : (c : Call) (r : Room) → SameSettings r (call hash c r)
  unfolding call
  call-SameSettings (joins name) r = (join-Keeps name).keeps r
  call-SameSettings (readies k n) r = (mark_ready-Keeps k n).keeps r
  call-SameSettings (loads k n) r = (mark_loaded-Keeps k n).keeps r
  call-SameSettings (requests_start k n) r = (request_manual_start-Keeps k n).keeps r
  call-SameSettings (acts k n sequence action) r = (submit_action-Keeps k n sequence action).keeps r
  call-SameSettings (keeps_alive k n sequence checksum) r =
      (submit_keepalive-Keeps k n sequence checksum).keeps r
  call-SameSettings (chats k n message now) r = (publish_chat-Keeps k n message now).keeps r
  call-SameSettings (leaves k n reason) r = (leave-Keeps k n reason).keeps r

  Step-SameSettings : (r s : Room) → Step hash r s → SameSettings r s
  Step-SameSettings r _ (calls c h) = call-SameSettings c r
  Step-SameSettings r _ (runs front back t e) =
      run_task-SameSettings t (record r { tasks = front ++ back })

  -- Whatever is called and however the tasks interleave, a room keeps its number of places and its
  -- policies.
  pub Reach-SameSettings : (r s : Room) → Reach hash r s → SameSettings r s
  Reach-SameSettings r _ here = (refl, refl, refl)
  Reach-SameSettings r _ (next {s} {t} before step) =
      let first = Reach-SameSettings r s before in
      let last = Step-SameSettings s t step in
      (last.0 ∙ first.0, last.1 ∙ first.1, last.2 ∙ first.2)
