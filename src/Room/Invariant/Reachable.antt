-- ===== src/Room/Invariant/Reachable.antt =====
-- Every room that a new one becomes by calls and tasks in any order satisfies the invariant.
use strajer.Common.{ℕ, ◌≡◌, refl, Bool, true, false, Result, ok, err, arith}
use strajer.Common.Bytes.{Bytes}
use strajer.Room.{
  Room, Task, send, end_game, run_countdown, run_gameplay, last_player_game_over,
  LobbyMembershipError, CountdownPolicy, GameplayPolicy, new_with_policies,
}
use strajer.Room.Rules.{
  Leaves, pure_end, if_rule, get_rule, gets_rule, put_rule, broadcast_rule, broadcast_end,
  spawn_end, bind_rule,
}
use strajer.Room.State.{countdown_matches}
use strajer.Room.Play.{publish_gameplay_tick}
use strajer.Room.Tasks.{
  publish_countdown_tick, finish_countdown, countdown_step, after_tick, gameplay_step,
  game_over_step, run_task, Call, call, joins, readies, loads, requests_start, acts, keeps_alive,
  chats, leaves, IsCall, Step, calls, runs, Reach, here, next,
}
use strajer.Room.Invariant.{IsRoom, new_with_policies-IsRoom}
use strajer.Room.Invariant.Lobby.{
  join-IsRoom, mark_ready-IsRoom, publish_chat-IsRoom, request_manual_start-IsRoom,
}
use strajer.Room.Invariant.Play.{mark_loaded-IsRoom, finish_game-IsRoom}
use strajer.Room.Invariant.Steps.{
  submit_action-IsRoom, submit_keepalive-IsRoom, publish_gameplay_tick-IsRoom,
}
use strajer.Room.Invariant.Departure.{leave-IsRoom}

-- The updates sent and the tasks left do not matter.
pub around :
    (r s : Room) → s.maximum_players ≡ r.maximum_players → s.state ≡ r.state → IsRoom r → IsRoom s
around r s e f v = record {
  table = rw (e, f) v.table;
  phase = rw f v.phase;
  pending = rw f v.pending;
}

publish_countdown_tick-IsRoom :
    (generation left : ℕ) (r : Room)
    → IsRoom r
    → Leaves IsRoom (publish_countdown_tick generation left) r
unfolding publish_countdown_tick countdown_matches
publish_countdown_tick-IsRoom generation left r v = get_rule _ (
    if_rule _ _ _ (λ _. pure_end _ v)
      λ matches. put_rule _ _ (
        broadcast_rule _ _
          (pure_end _ (record { table = v.table; phase = ground arith; pending = v.pending }))))

finish_countdown-IsRoom :
    (generation : ℕ) (r : Room) → IsRoom r → Leaves IsRoom (finish_countdown generation) r
unfolding finish_countdown countdown_matches
finish_countdown-IsRoom generation r v = get_rule _ (
    if_rule _ _ _ (λ _. pure_end _ v)
      λ matches.
        put_rule _ _
          (broadcast_end _ (record { table = v.table; phase = ground arith; pending = v.pending })))

countdown_step-IsRoom :
    (generation remaining : ℕ) (r : Room)
    → IsRoom r
    → Leaves IsRoom (countdown_step generation remaining) r
unfolding countdown_step
countdown_step-IsRoom generation remaining r v = gets_rule _ _ (
    if_rule _ _ _
      (λ _.
        let ticked = publish_countdown_tick-IsRoom generation _ r v in
        bind_rule _ _ ticked λ more _.
          if_rule _ _ _ (λ _. spawn_end _ (around _ _ refl refl ticked.holds))
            λ _. pure_end _ ticked.holds)
      λ _. finish_countdown-IsRoom generation r v)

after_tick-IsRoom :
    (generation : ℕ) (x : Result LobbyMembershipError Bool) (r : Room)
    → IsRoom r
    → Leaves IsRoom (after_tick generation x) r
after_tick-IsRoom generation (ok true) r v = spawn_end _ (around r _ refl refl v)
after_tick-IsRoom generation (ok false) r v = pure_end _ v
after_tick-IsRoom generation (err e) r v = spawn_end _ (around r _ refl refl v)

game_over_step-IsRoom :
    (generation : ℕ) (r : Room) → IsRoom r → Leaves IsRoom (game_over_step generation) r
unfolding game_over_step
game_over_step-IsRoom generation r v =
    get_rule _ (if_rule _ _ _ (λ _. spawn_end _ (around r _ refl refl v)) λ _. pure_end _ v)

module _ (hash : Bytes → ℕ) where
  run_task-IsRoom : (t : Task) (r : Room) → IsRoom r → IsRoom (run_task hash t r)
  unfolding run_task gameplay_step
  run_task-IsRoom (send u) r v = around r _ refl refl v
  run_task-IsRoom (end_game reason) r v = (finish_game-IsRoom reason r v).holds
  run_task-IsRoom (run_countdown generation remaining) r v =
      (countdown_step-IsRoom generation remaining r v).holds
  run_task-IsRoom (run_gameplay generation) r v =
      (after_tick-IsRoom generation (publish_gameplay_tick hash generation r).0 _
        (publish_gameplay_tick-IsRoom hash generation r v).holds).holds
  run_task-IsRoom (last_player_game_over generation) r v =
      (game_over_step-IsRoom generation r v).holds

  call-IsRoom : (c : Call) (r : Room) → IsCall c → IsRoom r → IsRoom (call hash c r)
  unfolding call
  call-IsRoom (joins name) r h v = (join-IsRoom name r v).holds
  call-IsRoom (readies k n) r h v = (mark_ready-IsRoom k n r v).holds
  call-IsRoom (loads k n) r h v = (mark_loaded-IsRoom k n r v).holds
  call-IsRoom (requests_start k n) r h v = (request_manual_start-IsRoom k n r v).holds
  call-IsRoom (acts k n sequence action) r h v =
      (submit_action-IsRoom k n sequence action r h v).holds
  call-IsRoom (keeps_alive k n sequence checksum) r h v =
      (submit_keepalive-IsRoom k n sequence checksum r v).holds
  call-IsRoom (chats k n message now) r h v = (publish_chat-IsRoom k n message now r v).holds
  call-IsRoom (leaves k n reason) r h v = (leave-IsRoom hash k n reason r v).holds

  Step-IsRoom : (r s : Room) → Step hash r s → IsRoom r → IsRoom s
  Step-IsRoom r _ (calls c h) v = call-IsRoom c r h v
  Step-IsRoom r _ (runs front back t e) v = run_task-IsRoom t _ (around r _ refl refl v)

  pub Reach-IsRoom : (r s : Room) → Reach hash r s → IsRoom r → IsRoom s
  Reach-IsRoom r _ here v = v
  Reach-IsRoom r _ (next {s} {t} before step) v = Step-IsRoom s t step (Reach-IsRoom r s before v)

-- Whatever the connections call and however the tasks interleave with them, the room that a new one
-- becomes satisfies the invariant: ids from 1 to the maximum in rising order, distinct names and
-- distinct sessions that were handed out before, bounded queues of checksums and of valid actions that
-- are counted right, a countdown only before the start with all players ready, a game only
-- while all players are loaded, and a started room never empty.
pub reachable-IsRoom :
    (hash : Bytes → ℕ) (revision maximum : ℕ) (c : CountdownPolicy) (g : GameplayPolicy) (s : Room)
    → Reach hash (new_with_policies revision maximum c g) s
    → IsRoom s
reachable-IsRoom hash revision maximum c g s h =
    Reach-IsRoom hash _ s h (new_with_policies-IsRoom revision maximum c g)
