-- ===== src/Room/News/Cancelled.antt =====
-- A countdown of apps/strajer-server/src/lobby.rs that was cancelled.
use strajer.Common.{ℕ, ◌+◌, ◌≤◌, ◌≡◌, refl, sym, Bool, false, List, [], ◌++◌, ok, append-nil, arith}
use strajer.Common.Bytes.{Bytes}
use strajer.Room.{
  Room, LobbyUpdate, Task, send, end_game, run_countdown, run_gameplay, last_player_game_over,
}
use strajer.Room.State.{countdown_matches}
use strajer.Room.Actions.{◌>>=◌}
use strajer.Room.Tasks.{
  publish_countdown_tick, finish_countdown, countdown_step, Step, calls, runs, Reach, here, next,
}
use strajer.Room.News.{IsNews, IsTold, IsLater, HasNews}
use strajer.Room.News.Steps.{run_task-HasNews, call-HasNews}

-- The tasks left do not matter.
pub with_tasks-HasNews :
    {lasts : Bool} {first : ℕ} {base : List LobbyUpdate} (r s : Room)
    → s.state ≡ r.state
    → s.updates ≡ r.updates
    → HasNews lasts first base r
    → HasNews lasts first base s
with_tasks-HasNews r s e f v = record {
  later = rw e v.later;
  news = v.news;
  grown = rw f v.grown;
  told = v.told;
}

-- A room has told nothing since itself.
pub begin-HasNews :
    (lasts : Bool) (first : ℕ) (r : Room)
    → IsLater first r.state.countdown_generation r.state.countdown_active
    → HasNews lasts first r.updates r
begin-HasNews lasts first r h = record {
  later = h;
  news = [];
  grown = sym (append-nil r.updates);
  told = tt;
}

any_IsNews : (u : LobbyUpdate) → IsNews false u
any_IsNews (LobbyUpdate.roster r) = tt
any_IsNews (LobbyUpdate.countdown n) = tt
any_IsNews LobbyUpdate.countdown_cancelled = tt
any_IsNews (LobbyUpdate.chat k message) = tt
any_IsNews LobbyUpdate.start = tt
any_IsNews (LobbyUpdate.player_loaded k) = tt
any_IsNews (LobbyUpdate.player_left k reason left) = refl
any_IsNews (LobbyUpdate.game_frame sequence f) = tt
any_IsNews (LobbyUpdate.game_over reason) = tt

any_IsTold : (t : Task) → IsTold false t
any_IsTold (send u) = any_IsNews u
any_IsTold (end_game reason) = tt
any_IsTold (run_countdown generation remaining) = tt
any_IsTold (run_gameplay generation) = tt
any_IsTold (last_player_game_over generation) = tt

Step-HasNews :
    (hash : Bytes → ℕ) (first : ℕ) (base : List LobbyUpdate) (r s : Room)
    → Step hash r s
    → HasNews false first base r
    → HasNews false first base s
Step-HasNews hash first base r _ (calls c h) v =
    call-HasNews false first hash base c r (λ k n reason e. refl) v
Step-HasNews hash first base r _ (runs front back t e) v =
    run_task-HasNews false first hash base t (record r { tasks = front ++ back }) (any_IsTold t)
      (with_tasks-HasNews r _ refl refl v)

Reach-HasNews :
    (hash : Bytes → ℕ) (first : ℕ) (base : List LobbyUpdate) (r s : Room)
    → Reach hash r s
    → HasNews false first base r
    → HasNews false first base s
Reach-HasNews hash first base r _ here v = v
Reach-HasNews hash first base r _ (next {s} {t} before step) v =
    Step-HasNews hash first base s t step (Reach-HasNews hash first base r s before v)

older-mismatch :
    (generation : ℕ) (r : Room)
    → IsLater (generation + 1) r.state.countdown_generation r.state.countdown_active
    → countdown_matches r.state generation ≡ false
unfolding countdown_matches
older-mismatch generation r v = ground (arith, v.now)

mismatch-stays :
    (generation remaining : ℕ) (r : Room)
    → countdown_matches r.state generation ≡ false
    → countdown_step generation remaining r ≡ (ok tt, r)
unfolding countdown_step publish_countdown_tick finish_countdown ◌>>=◌
mismatch-stays generation remaining r stale = ground arith

-- Once no countdown is running, a countdown begun before never acts again: whatever the connections call
-- and however the tasks interleave afterwards, later countdowns included, a step of the task of a
-- generation handed out by then changes nothing and spawns no further step, whatever time it has left.
pub countdown_step_cancelled :
    (hash : Bytes → ℕ) (generation remaining : ℕ) (r s : Room)
    → r.state.countdown_active ≡ false
    → generation ≤ r.state.countdown_generation
    → Reach hash r s
    → countdown_step generation remaining s ≡ (ok tt, s)
countdown_step_cancelled hash generation remaining r s idle old reach =
    let start : IsLater (generation + 1) r.state.countdown_generation r.state.countdown_active =
      record { next = omega (arith, old); now = λ e. absurd (cc (idle, e)) } in
    let v =
      Reach-HasNews hash (generation + 1) r.updates r s reach
        (begin-HasNews false (generation + 1) r start) in
    mismatch-stays generation remaining s (older-mismatch generation s v.later)
