-- ===== src/Room/News/Steps.antt =====
-- What the handlers and tasks of apps/strajer-server/src/lobby.rs broadcast, and which countdowns they leave.
use strajer.Common.{
  ◌≡◌, ℕ, refl, Bool, true, false, List, [], ◌∷◌, Option, none, some, Result, ok, err, ok_or,
  checked_add,
}
use strajer.Common.Bytes.{Bytes, u64_max}
use strajer.Common.Texts.{Text}
use strajer.Frame.{Frame, to_bytes}
use strajer.Protocol.{LobbyLeaveReason, GameEndReason}
use strajer.Game.{PlayerAction}
use strajer.Room.{
  Room, Task, send, end_game, run_countdown, run_gameplay, last_player_game_over,
  LobbyMembershipError, LobbyUpdate, gameplay_sequence_exhausted,
}
use strajer.Room.Actions.{Action, from, ◌>>=◌, ◌>>◌, get_state, put_state, broadcast}
use strajer.Room.Lobby.{
  join, begin_countdown, spawn_countdown, mark_ready, publish_chat, request_manual_start,
}
use strajer.Room.Play.{
  begin_gameplay_if_ready, spawn_gameplay, mark_loaded, submit_action, submit_keepalive,
  finish_game, publish_frames, remove_player, after_departure, publish_pending_actions,
  publish_gameplay_tick, leave,
}
use strajer.Room.Tasks.{
  publish_countdown_tick, finish_countdown, countdown_step, after_tick, gameplay_step,
  game_over_step, run_task, Call, call, joins, readies, loads, requests_start, acts, keeps_alive,
  chats, leaves,
}
use strajer.Room.State.{reset_game}
use strajer.Room.News.{IsTold, HasNews, Tells, telling, pure_told, spawn_told, broadcast_told}

module _ (lasts : Bool) (first : ℕ) where
  join-Tells : (player_name : Text) → Tells lasts first (join player_name)
  unfolding join
  join-Tells player_name = search telling depth 40 fits 3000

  begin_countdown-Tells : Tells lasts first begin_countdown
  unfolding begin_countdown
  begin_countdown-Tells = search telling depth 40 fits 3000

  spawn_countdown-Tells : (generation : ℕ) → Tells lasts first (spawn_countdown generation)
  unfolding spawn_countdown
  spawn_countdown-Tells generation = search telling depth 40 fits 3000

  mark_ready-Tells :
      (player_id session_id : ℕ) → Tells lasts first (mark_ready player_id session_id)
  unfolding mark_ready
  mark_ready-Tells player_id session_id =
      search (telling, begin_countdown-Tells, spawn_countdown-Tells) depth 40 fits 3000

  publish_chat-Tells :
      (player_id session_id : ℕ) (message : Text) (now : ℕ)
      → Tells lasts first (publish_chat player_id session_id message now)
  unfolding publish_chat
  publish_chat-Tells player_id session_id message now = search telling depth 40 fits 3000

  request_manual_start-Tells :
      (player_id session_id : ℕ) → Tells lasts first (request_manual_start player_id session_id)
  unfolding request_manual_start
  request_manual_start-Tells player_id session_id =
      search (telling, begin_countdown-Tells, spawn_countdown-Tells) depth 40 fits 3000

  begin_gameplay_if_ready-Tells : Tells lasts first begin_gameplay_if_ready
  unfolding begin_gameplay_if_ready
  begin_gameplay_if_ready-Tells = search telling depth 40 fits 3000

  spawn_gameplay-Tells : (o : Option ℕ) → Tells lasts first (spawn_gameplay o)
  spawn_gameplay-Tells none = pure_told tt
  spawn_gameplay-Tells (some generation) = spawn_told (run_gameplay generation)

  mark_loaded-Tells :
      (player_id session_id : ℕ) → Tells lasts first (mark_loaded player_id session_id)
  unfolding mark_loaded
  mark_loaded-Tells player_id session_id =
      search (telling, begin_gameplay_if_ready-Tells, spawn_gameplay-Tells) depth 40 fits 3000

  submit_action-Tells :
      (player_id session_id sequence : ℕ) (action : PlayerAction)
      → Tells lasts first (submit_action player_id session_id sequence action)
  unfolding submit_action
  submit_action-Tells player_id session_id sequence action = search telling depth 40 fits 3000

  submit_keepalive-Tells :
      (player_id session_id sequence checksum : ℕ)
      → Tells lasts first (submit_keepalive player_id session_id sequence checksum)
  unfolding submit_keepalive
  submit_keepalive-Tells player_id session_id sequence checksum = search telling depth 40 fits 3000

  finish_game-Tells : (reason : GameEndReason) → Tells lasts first (finish_game reason)
  unfolding finish_game reset_game
  finish_game-Tells reason = search telling depth 40 fits 3000

  publish_frame-Tells :
      (f : Frame) (rest : Action LobbyMembershipError (Unit {0}))
      → Tells lasts first rest
      → Tells lasts first (do
        s ← get_state
        sequence ←
            from (ok_or (checked_add u64_max s.gameplay_sequence 1) gameplay_sequence_exhausted)
        put_state (record s { gameplay_sequence = sequence })
        broadcast (LobbyUpdate.game_frame sequence (to_bytes f))
        rest)
  publish_frame-Tells f rest h = search telling depth 40 fits 3000

  publish_frames-Tells : (fs : List Frame) → Tells lasts first (publish_frames fs)
  unfolding publish_frames
  publish_frames-Tells [] = record { tells = λ base r v. v }
  publish_frames-Tells (f ∷ fs) = record {
    tells = (publish_frame-Tells f (publish_frames fs) (publish_frames-Tells fs)).tells;
  }

  remove_player-Tells :
      (player_id : ℕ) (reason : LobbyLeaveReason)
      → lasts ≡ false
      → Tells lasts first (remove_player player_id reason)
  unfolding remove_player
  remove_player-Tells player_id reason departs = search telling depth 40 fits 3000

  after_departure-Tells : (started : Bool) → Tells lasts first (after_departure started)
  unfolding after_departure reset_game
  after_departure-Tells started =
      search (telling, begin_gameplay_if_ready-Tells, spawn_gameplay-Tells) depth 40 fits 3000

  publish_countdown_tick-Tells :
      (generation left : ℕ) → Tells lasts first (publish_countdown_tick generation left)
  unfolding publish_countdown_tick
  publish_countdown_tick-Tells generation left = search telling depth 40 fits 3000

  finish_countdown-Tells : (generation : ℕ) → Tells lasts first (finish_countdown generation)
  unfolding finish_countdown
  finish_countdown-Tells generation = search telling depth 40 fits 3000

  countdown_step-Tells :
      (generation remaining : ℕ) → Tells lasts first (countdown_step generation remaining)
  unfolding countdown_step
  countdown_step-Tells generation remaining =
      search (telling, publish_countdown_tick-Tells, finish_countdown-Tells) depth 40 fits 3000

  game_over_step-Tells : (generation : ℕ) → Tells lasts first (game_over_step generation)
  unfolding game_over_step
  game_over_step-Tells generation = search telling depth 40 fits 3000

  module _ (hash : Bytes → ℕ) where
    pub publish_pending_actions-Tells :
        (time : ℕ) → Tells lasts first (publish_pending_actions hash time)
    unfolding publish_pending_actions
    publish_pending_actions-Tells time = search (telling, publish_frames-Tells) depth 40 fits 3000

    publish_gameplay_tick-Tells :
        (generation : ℕ) → Tells lasts first (publish_gameplay_tick hash generation)
    unfolding publish_gameplay_tick
    publish_gameplay_tick-Tells generation =
        search (telling, publish_pending_actions-Tells) depth 40 fits 3000

    leave-Tells :
        (player_id session_id : ℕ) (reason : LobbyLeaveReason)
        → lasts ≡ false
        → Tells lasts first (leave hash player_id session_id reason)
    unfolding leave
    leave-Tells player_id session_id reason departs =
        search (telling, publish_pending_actions-Tells, remove_player-Tells, after_departure-Tells)
          depth 40 fits 3000

    after_tick-Tells :
        (generation : ℕ) (x : Result LobbyMembershipError Bool)
        → Tells lasts first (after_tick generation x)
    after_tick-Tells generation (ok true) = search telling
    after_tick-Tells generation (ok false) = search telling
    after_tick-Tells generation (err e) = search telling

    pub run_task-HasNews :
        (base : List LobbyUpdate) (t : Task) (r : Room)
        → IsTold lasts t
        → HasNews lasts first base r
        → HasNews lasts first base (run_task hash t r)
    unfolding run_task gameplay_step broadcast
    run_task-HasNews base (send u) r h v =
        (broadcast_told {E = LobbyMembershipError} u h).tells base r v
    run_task-HasNews base (end_game reason) r h v = (finish_game-Tells reason).tells base r v
    run_task-HasNews base (run_countdown generation remaining) r h v =
        (countdown_step-Tells generation remaining).tells base r v
    run_task-HasNews base (run_gameplay generation) r h v =
        (after_tick-Tells generation (publish_gameplay_tick hash generation r).0).tells base _
          ((publish_gameplay_tick-Tells generation).tells base r v)
    run_task-HasNews base (last_player_game_over generation) r h v =
        (game_over_step-Tells generation).tells base r v

    pub call-HasNews :
        (base : List LobbyUpdate) (c : Call) (r : Room)
        → ((k n : ℕ) (reason : LobbyLeaveReason) → c ≡ leaves k n reason → lasts ≡ false)
        → HasNews lasts first base r
        → HasNews lasts first base (call hash c r)
    unfolding call
    call-HasNews base (joins name) r h v = (join-Tells name).tells base r v
    call-HasNews base (readies k n) r h v = (mark_ready-Tells k n).tells base r v
    call-HasNews base (loads k n) r h v = (mark_loaded-Tells k n).tells base r v
    call-HasNews base (requests_start k n) r h v = (request_manual_start-Tells k n).tells base r v
    call-HasNews base (acts k n sequence action) r h v =
        (submit_action-Tells k n sequence action).tells base r v
    call-HasNews base (keeps_alive k n sequence checksum) r h v =
        (submit_keepalive-Tells k n sequence checksum).tells base r v
    call-HasNews base (chats k n message now) r h v =
        (publish_chat-Tells k n message now).tells base r v
    call-HasNews base (leaves k n reason) r h v =
        (leave-Tells k n reason (h k n reason refl)).tells base r v
