-- ===== src/Room/Tasks/Countdown.antt =====
-- The countdown of a room of apps/strajer-server/src/lobby.rs, run to the start of the game.
use strajer.Common.{
  ℕ, zero, suc, ◌-◌, ◌*◌, ◌≤◌, ◌<◌, ◌≡◌, refl, ap, sym, true, false, List, [], ◌∷◌, ◌++◌, none,
  some, ok, arith, append_assoc, append-nil,
}
use strajer.Common.Bytes.{Bytes}
use strajer.Room.{Room, Task, LobbyUpdate, countdown, start, run_countdown}
use strajer.Room.State.{countdown_matches}
use strajer.Room.Actions.{◌>>=◌}
use strajer.Room.Tasks.{
  publish_countdown_tick, finish_countdown, countdown_step, run_task, Step, runs, Reach, here, next,
}

-- The seconds left in the updates of a countdown with `n` more ticks to come.
abbrev pub ticks : ℕ → ℕ → List LobbyUpdate
ticks step zero = []
ticks step (suc n) = countdown (suc n * step) ∷ ticks step n

-- A room whose tick has been published.
abbrev ticked : ℕ → ℕ → Room → Room
ticked generation left r = record r {
  state = record r.state { countdown_remaining_seconds = some left };
  updates = r.updates ++ (countdown left ∷ []);
  tasks = r.tasks ++ (run_countdown generation left ∷ []);
}

-- A room whose countdown is over.
abbrev pub begun : List LobbyUpdate → Room → Room
begun news r = record r {
  state = record r.state {
    countdown_active = false;
    countdown_remaining_seconds = none;
    started = true;
  };
  updates = r.updates ++ news;
}

countdown_step_more :
    (generation remaining left : ℕ) (r : Room)
    → countdown_matches r.state generation ≡ true
    → r.countdown_policy.step_seconds < remaining
    → left ≡ remaining - r.countdown_policy.step_seconds
    → countdown_step generation remaining r ≡ (ok tt, ticked generation left r)
unfolding countdown_step publish_countdown_tick ◌>>=◌
countdown_step_more generation remaining left r matches more e = ground arith

countdown_step_last :
    (generation remaining : ℕ) (r : Room)
    → countdown_matches r.state generation ≡ true
    → remaining ≤ r.countdown_policy.step_seconds
    → countdown_step generation remaining r ≡ (ok tt, begun (start ∷ []) r)
unfolding countdown_step finish_countdown ◌>>=◌
countdown_step_last generation remaining r matches last = ground arith

ticked-matches :
    (generation left : ℕ) (rest : List Task) (r : Room)
    → countdown_matches r.state generation ≡ true
    → countdown_matches (ticked generation left (record r { tasks = rest })).state generation ≡ true
unfolding countdown_matches
ticked-matches generation left rest r h = h

begun-ticked :
    (generation left : ℕ) (news : List LobbyUpdate) (rest : List Task) (r : Room)
    → begun news
        (record (ticked generation left (record r { tasks = rest })) { tasks = rest ++ [] })
      ≡ begun (countdown left ∷ news) (record r { tasks = rest })
begun-ticked generation left news rest r =
    ground (arith, append-nil rest, append_assoc r.updates (countdown left ∷ []) news)

module _ (hash : Bytes → ℕ) where
  Reach-cons : (r s t : Room) → Step hash r s → Reach hash s t → Reach hash r t
  Reach-cons r _ _ first here = next here first
  Reach-cons r s _ first (next before last) = next (Reach-cons r s _ first before) last

  module _ (generation : ℕ) (front back : List Task) (r : Room) where
    one_tick :
        (remaining left : ℕ)
        → r.tasks ≡ front ++ (run_countdown generation remaining ∷ back)
        → countdown_matches r.state generation ≡ true
        → r.countdown_policy.step_seconds < remaining
        → left ≡ remaining - r.countdown_policy.step_seconds
        → Step hash r (ticked generation left (record r { tasks = front ++ back }))
    unfolding run_task
    one_tick remaining left e matches more d =
        rw
          (sym (
            ap (λ x. x.1)
              (countdown_step_more generation remaining left (record r { tasks = front ++ back })
                matches more d)))
          (runs front back (run_countdown generation remaining) e)

    last_tick :
        (remaining : ℕ)
        → r.tasks ≡ front ++ (run_countdown generation remaining ∷ back)
        → countdown_matches r.state generation ≡ true
        → remaining ≤ r.countdown_policy.step_seconds
        → Step hash r (begun (start ∷ []) (record r { tasks = front ++ back }))
    unfolding run_task
    last_tick remaining e matches last =
        rw
          (sym (
            ap (λ x. x.1)
              (countdown_step_last generation remaining (record r { tasks = front ++ back }) matches
                last)))
          (runs front back (run_countdown generation remaining) e)

  -- With a positive step, the task of a current countdown that has `n + 1` steps left can run alone to
  -- the start: it publishes `n * step`, .., `2 * step` and `step` seconds left, then the start,
  -- and the room has started with no countdown and without the task.
  pub countdown-Reach :
      (n generation : ℕ) (front back : List Task) (r : Room)
      → 0 < r.countdown_policy.step_seconds
      → r.tasks
        ≡ front ++ (run_countdown generation (suc n * r.countdown_policy.step_seconds) ∷ back)
      → countdown_matches r.state generation ≡ true
      → Reach hash r (
          begun
            (ticks r.countdown_policy.step_seconds n ++ (start ∷ []))
            (record r { tasks = front ++ back }))
  countdown-Reach zero generation front back r pos e matches =
      next here (last_tick generation front back r _ e matches (omega arith))
  countdown-Reach (suc n) generation front back r pos e matches =
      let step = r.countdown_policy.step_seconds in
      let left = suc n * step in
      let rest = front ++ back in
      let first =
        one_tick generation front back r (suc (suc n) * step) left e matches (omega arith)
          (omega arith) in
      rw (sym (begun-ticked generation left (ticks step n ++ (start ∷ [])) rest r)) (
        Reach-cons r _ _ first (
          countdown-Reach n generation rest [] _ pos refl
            (ticked-matches generation left rest r matches)))
