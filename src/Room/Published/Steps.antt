-- ===== src/Room/Published/Steps.antt =====
-- Whatever happens to a room of apps/strajer-server/src/lobby.rs, all that it publishes fits.
use strajer.Common.{
  ℕ, ◌+◌, ◌-◌, ◌≤◌, ◌<◌, ◌≡◌, refl, ap, Bool, true, false, List, [], ◌∷◌, ◌++◌, Result, ok, err,
  ltb, All, All-append, arith,
}
use strajer.Common.Bytes.{Bytes, u16_max}
use strajer.Common.Texts.{Text}
use strajer.Protocol.{
  max_warcraft_players, validate_lobby_player_name, validate_lobby_countdown_seconds,
}
use strajer.Protocol.Roster.{validate}
use strajer.Room.{
  Room, LobbyUpdate, Task, send, end_game, run_countdown, run_gameplay, last_player_game_over,
  LobbyMembershipError, LobbyJoinError, GameplayPolicy, new_with_policies, default_countdown_policy,
}
use strajer.Room.Players.{insert-Above, All-insert}
use strajer.Room.Lobby.{LobbyMembership, joined, new_player}
use strajer.Room.Play.{publish_gameplay_tick}
use strajer.Room.Rosters.{IsListed, listed-validate}
use strajer.Room.Outcomes.Joins.{JoinOutcome, join_lem}
use strajer.Room.Tasks.{
  publish_countdown_tick, finish_countdown, countdown_step, after_tick, gameplay_step,
  game_over_step, run_task, Call, call, joins, readies, loads, requests_start, acts, keeps_alive,
  chats, leaves, IsCall, Step, calls, runs, Reach, here, next,
}
use strajer.Room.Published.{
  Fits, FitsTask, IsGood, IsPublic, Publishes, publishing, gets_published, if_published,
  bind_published, spawn_published, pure_published,
}
use strajer.Room.Published.Frames.{publish_gameplay_tick-IsPublic, leave-IsPublic}
use strajer.Room.Invariant.{IsRoom, new_with_policies-IsRoom}
use strajer.Room.Invariant.Reachable.{around, Reach-IsRoom}
use strajer.Room.Published.Handlers.{
  mark_ready-Publishes, publish_chat-Publishes, request_manual_start-Publishes,
  mark_loaded-Publishes, submit_action-Publishes, submit_keepalive-Publishes, finish_game-Publishes,
}

-- A countdown steps down from a multiple of ten to the next one.
left_lem :
    (n : ℕ)
    → validate_lobby_countdown_seconds n ≡ ok tt
    → ltb 10 n ≡ true
    → validate_lobby_countdown_seconds (n - 10) ≡ ok tt
unfolding validate_lobby_countdown_seconds
left_lem n h e = ground arith

pub All-remove_middle :
    {A : Type 0} (P : A → Type 0) (front back : List A) (x : A)
    → All P (front ++ (x ∷ back))
    → P x × All P (front ++ back)
All-remove_middle P [] back x h = h
All-remove_middle P (y ∷ front) back x h =
    let (first, rest) = All-remove_middle P front back x h.1 in (first, (h.0, rest))

module _ (maximum : ℕ) (positive : 0 < maximum) (most : maximum ≤ max_warcraft_players) where
  publish_countdown_tick-Publishes :
      (generation left : ℕ)
      → validate_lobby_countdown_seconds left ≡ ok tt
      → Publishes maximum (publish_countdown_tick generation left)
  unfolding publish_countdown_tick
  publish_countdown_tick-Publishes generation left h = search publishing depth 40 fits 3000

  finish_countdown-Publishes : (generation : ℕ) → Publishes maximum (finish_countdown generation)
  unfolding finish_countdown
  finish_countdown-Publishes generation = search publishing depth 40 fits 3000

  countdown_step-Publishes :
      (generation remaining : ℕ)
      → validate_lobby_countdown_seconds remaining ≡ ok tt
      → Publishes maximum (countdown_step generation remaining)
  unfolding countdown_step
  countdown_step-Publishes generation remaining h = gets_published _ _ λ r _ policy.
      let steps : r.countdown_policy.step_seconds ≡ 10 = ap (λ p. p.step_seconds) policy in
      rw steps (
        if_published _ _ _
          (λ more.
            let left = left_lem remaining h more in
            bind_published _ _ (publish_countdown_tick-Publishes generation (remaining - 10) left)
              λ again.
                if_published _ _ _
                  (λ _. spawn_published (run_countdown generation (remaining - 10)) left)
                  λ _. pure_published tt)
          λ _. finish_countdown-Publishes generation)

  after_tick-Publishes :
      (generation : ℕ) (x : Result LobbyMembershipError Bool)
      → Publishes maximum (after_tick generation x)
  after_tick-Publishes generation (ok true) = search publishing
  after_tick-Publishes generation (ok false) = search publishing
  after_tick-Publishes generation (err e) = search publishing

  game_over_step-Publishes : (generation : ℕ) → Publishes maximum (game_over_step generation)
  unfolding game_over_step
  game_over_step-Publishes generation = search publishing depth 40 fits 3000

  -- The room that a join leaves.
  joined-IsPublic :
      (name : Text) (r after : Room) (x : Result LobbyJoinError LobbyMembership)
      → JoinOutcome name r x after
      → validate_lobby_player_name name ≡ ok tt
      → IsPublic maximum r
      → IsPublic maximum after
  joined-IsPublic name r after (err e) outcome h v = rw outcome.0 v
  joined-IsPublic name r after (ok m) a h v =
      let p = new_player r.state.next_session_id name in
      let s = joined m.player_id (m.session_id + 1) name r.state in
      let above =
        insert-Above 0 m.player_id p r.state.players (omega (arith, a.in_range)) v.good.above in
      let listed =
        All-insert (IsListed maximum) m.player_id p r.state.players
          (omega (arith, a.in_range, v.places), h) v.good.listed in
      let good : IsGood maximum s.revision s.players = record {
        above = above;
        listed = listed;
        revised = ground arith;
      } in
      let roster : validate maximum m.roster ≡ ok tt =
        rw (a.roster, a.room) (listed-validate maximum s above listed good.revised positive most) in
      let left : IsPublic maximum
          (record r { state = s; tasks = r.tasks ++ (send (LobbyUpdate.roster m.roster) ∷ []) }) =
        record {
          places = v.places;
          policy = v.policy;
          tick = v.tick;
          good = good;
          updates = v.updates;
          tasks =
              All-append (FitsTask maximum) r.tasks (send (LobbyUpdate.roster m.roster) ∷ [])
                v.tasks ((roster, tt), tt);
        } in
      rw (a.room) left

  module _ (hash : Bytes → ℕ) where
    gameplay_step-IsPublic :
        (generation : ℕ) (r : Room)
        → IsRoom r
        → IsPublic maximum r
        → IsPublic maximum (gameplay_step hash generation r).1
    unfolding gameplay_step
    gameplay_step-IsPublic generation r w v =
        let ticked =
          (publish_gameplay_tick-IsPublic hash maximum positive most generation r w v).holds in
        (after_tick-Publishes generation (publish_gameplay_tick hash generation r).0).publishes _
          ticked

    run_task-IsPublic :
        (t : Task) (r : Room)
        → FitsTask maximum t
        → IsRoom r
        → IsPublic maximum r
        → IsPublic maximum (run_task hash t r)
    unfolding run_task
    run_task-IsPublic (send u) r h w v = record {
      places = v.places;
      policy = v.policy;
      tick = v.tick;
      good = v.good;
      updates = All-append (Fits maximum) r.updates (u ∷ []) v.updates (h.0, tt);
      tasks = v.tasks;
    }
    run_task-IsPublic (end_game reason) r h w v =
        (finish_game-Publishes maximum positive most reason).publishes r v
    run_task-IsPublic (run_countdown generation remaining) r h w v =
        (countdown_step-Publishes generation remaining h).publishes r v
    run_task-IsPublic (run_gameplay generation) r h w v = gameplay_step-IsPublic generation r w v
    run_task-IsPublic (last_player_game_over generation) r h w v =
        (game_over_step-Publishes generation).publishes r v

    call-IsPublic :
        (c : Call) (r : Room)
        → IsCall c
        → IsRoom r
        → IsPublic maximum r
        → IsPublic maximum (call hash c r)
    unfolding call
    call-IsPublic (joins name) r h w v = joined-IsPublic name r _ _ (join_lem name r) h v
    call-IsPublic (readies k n) r h w v =
        (mark_ready-Publishes maximum positive most k n).publishes r v
    call-IsPublic (loads k n) r h w v =
        (mark_loaded-Publishes maximum positive most k n).publishes r v
    call-IsPublic (requests_start k n) r h w v =
        (request_manual_start-Publishes maximum positive most k n).publishes r v
    call-IsPublic (acts k n sequence action) r h w v =
        (submit_action-Publishes maximum positive most k n sequence action).publishes r v
    call-IsPublic (keeps_alive k n sequence checksum) r h w v =
        (submit_keepalive-Publishes maximum positive most k n sequence checksum).publishes r v
    call-IsPublic (chats k n message now) r h w v =
        (publish_chat-Publishes maximum positive most k n message now h).publishes r v
    call-IsPublic (leaves k n reason) r h w v =
        (leave-IsPublic hash maximum positive most k n reason r w v).holds

    Step-IsPublic :
        (r s : Room) → Step hash r s → IsRoom r → IsPublic maximum r → IsPublic maximum s
    Step-IsPublic r _ (calls c h) w v = call-IsPublic c r h w v
    Step-IsPublic r _ (runs front back t e) w v =
        let (fits, rest) = All-remove_middle (FitsTask maximum) front back t (rw e at v.tasks) in
        run_task-IsPublic t (record r { tasks = front ++ back }) fits (around r _ refl refl w)
          (record {
            places = v.places;
            policy = v.policy;
            tick = v.tick;
            good = v.good;
            updates = v.updates;
            tasks = rest;
          })

    Reach-IsPublic :
        (r s : Room) → Reach hash r s → IsRoom r → IsPublic maximum r → IsPublic maximum s
    Reach-IsPublic r _ here w v = v
    Reach-IsPublic r _ (next {s} {t} before step) w v =
        Step-IsPublic s t step (Reach-IsRoom hash r s before w) (Reach-IsPublic r s before w v)

-- A room that a lobby's new one has become.
pub reached-IsPublic :
    (hash : Bytes → ℕ) (revision maximum : ℕ) (g : GameplayPolicy) (r : Room)
    → 0 < revision
    → 0 < maximum
    → maximum ≤ max_warcraft_players
    → g.tick_increment_ms ≤ u16_max
    → Reach hash (new_with_policies revision maximum default_countdown_policy g) r
    → IsPublic maximum r
unfolding new_with_policies
reached-IsPublic hash revision maximum g r revised positive most short reach =
    let start : IsPublic maximum (new_with_policies revision maximum default_countdown_policy g) =
      record {
        places = refl;
        policy = refl;
        tick = short;
        good = record { above = tt; listed = tt; revised = revised };
        updates = tt;
        tasks = tt;
      } in
    Reach-IsPublic maximum positive most hash _ r reach
      (new_with_policies-IsRoom revision maximum default_countdown_policy g) start

-- In a room with 1 to 24 places, a positive first revision, the usual countdown and a tick of 16 bits,
-- every update that is ever broadcast fits, whatever the connections call and however the tasks
-- interleave: rosters and countdowns that the protocol accepts, chat that it accepts under an id within
-- the places, confirmations under such an id, departures after which the roster is without the player
-- who left, and frames of the game whose number and length the tunnel accepts.
pub Reach-Fits :
    (hash : Bytes → ℕ) (revision maximum : ℕ) (g : GameplayPolicy) (r : Room)
    → 0 < revision
    → 0 < maximum
    → maximum ≤ max_warcraft_players
    → g.tick_increment_ms ≤ u16_max
    → Reach hash (new_with_policies revision maximum default_countdown_policy g) r
    → All (Fits maximum) r.updates
Reach-Fits hash revision maximum g r revised positive most short reach =
    (reached-IsPublic hash revision maximum g r revised positive most short reach).updates
