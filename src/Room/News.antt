-- ===== src/Room/News.antt =====
-- What a room (apps/strajer-server/src/lobby.rs) has broadcast since some earlier time, and which countdowns
-- can still be running.
pub mod Steps
pub mod Cancelled
use strajer.Common.{
  ℕ, ◌+◌, ◌≤◌, ◌<◌, ◌≡◌, refl, ap, ◌∙◌, Bool, true, false, List, [], ◌∷◌, ◌++◌, Option, none, some,
  Result, ok, err, ok_or, All, All-append, append_assoc, checked_add, arith,
}
use strajer.Common.Bytes.{u64_max}
use strajer.Room.{
  Room, LobbyRoomState, LobbyUpdate, LobbyMembershipError, Task, send, end_game, run_countdown,
  run_gameplay, last_player_game_over,
}
use strajer.Room.State.{accept_game_sequence}
use strajer.Room.Invariant.Play.{accept_game_sequence-ok}
use strajer.Room.Actions.{
  Action, continue, pure, from, ◌>>=◌, ◌>>◌, get_state, gets, put_state, reject_when, when,
  broadcast, spawn, test◌then◌else◌,
}

-- With `lasts`, no departure.
abbrev pub IsNews : Bool → LobbyUpdate → Type 0
IsNews lasts (LobbyUpdate.roster r) = Unit {0}
IsNews lasts (LobbyUpdate.countdown n) = Unit {0}
IsNews lasts LobbyUpdate.countdown_cancelled = Unit {0}
IsNews lasts (LobbyUpdate.chat k message) = Unit {0}
IsNews lasts LobbyUpdate.start = Unit {0}
IsNews lasts (LobbyUpdate.player_loaded k) = Unit {0}
IsNews lasts (LobbyUpdate.player_left k reason left) = lasts ≡ false
IsNews lasts (LobbyUpdate.game_frame sequence f) = Unit {0}
IsNews lasts (LobbyUpdate.game_over reason) = Unit {0}

-- What a task may broadcast by itself.
abbrev pub IsTold : Bool → Task → Type 0
IsTold lasts (send u) = IsNews lasts u
IsTold lasts (end_game reason) = Unit {0}
IsTold lasts (run_countdown generation remaining) = Unit {0}
IsTold lasts (run_gameplay generation) = Unit {0}
IsTold lasts (last_player_game_over generation) = Unit {0}

-- A countdown that runs has the generation `first` at least, and so has the next one.
pub record IsLater (first generation : ℕ) (active : Bool) : Type 0 where
  pub next : first ≤ generation + 1
  pub now : active ≡ true → first ≤ generation

-- A room that had broadcast `base`.
pub record HasNews (lasts : Bool) (first : ℕ) (base : List LobbyUpdate) (r : Room) : Type 0 where
  pub later : IsLater first r.state.countdown_generation r.state.countdown_active
  pub news : List LobbyUpdate
  pub grown : r.updates ≡ base ++ news
  pub told : All (IsNews lasts) news

-- Run on such a room, the handler leaves one.
pub record Tells {E A : Type 0} (lasts : Bool) (first : ℕ) (m : Action E A) : Type 0 where
  pub tells :
      (base : List LobbyUpdate) (r : Room)
      → HasNews lasts first base r
      → HasNews lasts first base (m r).1

module _ {E A : Type 0} {lasts : Bool} {first : ℕ} where
  pub pure_told : (a : A) → Tells lasts first (pure {E = E} a)
  unfolding pure
  pure_told a = record { tells = λ base r v. v }

  pub from_told : (x : Result E A) → Tells lasts first (from x)
  unfolding from
  from_told x = record { tells = λ base r v. v }

  test_HasNews :
      (b : Bool) (m k : Action E A) (base : List LobbyUpdate) (r : Room)
      → (b ≡ true → Tells lasts first m)
      → (b ≡ false → Tells lasts first k)
      → HasNews lasts first base r
      → HasNews lasts first base ((test b then m else k) r).1
  unfolding test◌then◌else◌
  test_HasNews true m k base r f g v = (f refl).tells base r v
  test_HasNews false m k base r f g v = (g refl).tells base r v

  pub if_told :
      (b : Bool) (m k : Action E A)
      → (b ≡ true → Tells lasts first m)
      → (b ≡ false → Tells lasts first k)
      → Tells lasts first (test b then m else k)
  if_told b m k f g = record { tells = λ base r v. test_HasNews b m k base r f g v }

  pub get_told :
      (k : LobbyRoomState → Action E A)
      → ((s : LobbyRoomState)
          → IsLater first s.countdown_generation s.countdown_active
          → Tells lasts first (k s))
      → Tells lasts first (get_state >>= k)
  unfolding ◌>>=◌
  get_told k f = record { tells = λ base r v. (f r.state v.later).tells base r v }

  pub gets_told :
      {B : Type 0} (g : Room → B) (k : B → Action E A)
      → ((r : Room) → Tells lasts first (k (g r)))
      → Tells lasts first (gets g >>= k)
  unfolding ◌>>=◌
  gets_told g k f = record { tells = λ base r v. (f r).tells base r v }

  from_HasNews :
      {B : Type 0} (x : Result E B) (k : B → Action E A) (base : List LobbyUpdate) (r : Room)
      → ((b : B) → x ≡ ok b → Tells lasts first (k b))
      → HasNews lasts first base r
      → HasNews lasts first base ((from x >>= k) r).1
  unfolding ◌>>=◌
  from_HasNews (ok b) k base r f v = (f b refl).tells base r v
  from_HasNews (err e) k base r f v = v

  pub try_told :
      {B : Type 0} (x : Result E B) (k : B → Action E A)
      → ((b : B) → x ≡ ok b → Tells lasts first (k b))
      → Tells lasts first (from x >>= k)
  try_told x k f = record { tells = λ base r v. from_HasNews x k base r f v }

  continue-HasNews :
      {B : Type 0} (x : Result E B) (k : B → Action E A) (base : List LobbyUpdate) (r : Room)
      → ((b : B) → Tells lasts first (k b))
      → HasNews lasts first base r
      → HasNews lasts first base (continue x k r).1
  continue-HasNews (ok b) k base r f v = (f b).tells base r v
  continue-HasNews (err e) k base r f v = v

  pub bind_told :
      {B : Type 0} (m : Action E B) (k : B → Action E A)
      → Tells lasts first m
      → ((b : B) → Tells lasts first (k b))
      → Tells lasts first (m >>= k)
  unfolding ◌>>=◌
  bind_told m k h f = record {
    tells = λ base r v. continue-HasNews (m r).0 k base (m r).1 f (h.tells base r v);
  }

module _ {E : Type 0} {lasts : Bool} {first : ℕ} where
  pub put_told :
      (s : LobbyRoomState)
      → IsLater first s.countdown_generation s.countdown_active
      → Tells lasts first (put_state {E = E} s)
  unfolding put_state
  put_told s h = record {
    tells = λ base r v. record { later = h; news = v.news; grown = v.grown; told = v.told };
  }

  pub broadcast_told : (u : LobbyUpdate) → IsNews lasts u → Tells lasts first (broadcast {E = E} u)
  unfolding broadcast
  broadcast_told u h = record {
    tells = λ base r v. record {
      later = v.later;
      news = v.news ++ (u ∷ []);
      grown = ap (λ us. us ++ (u ∷ [])) v.grown ∙ append_assoc base v.news (u ∷ []);
      told = All-append (IsNews lasts) v.news (u ∷ []) v.told (h, tt);
    };
  }

  pub spawn_told : (t : Task) → Tells lasts first (spawn {E = E} t)
  unfolding spawn
  spawn_told t = record {
    tells = λ base r v. record { later = v.later; news = v.news; grown = v.grown; told = v.told };
  }

  reject_HasNews :
      (b : Bool) (e : E) (base : List LobbyUpdate) (r : Room)
      → HasNews lasts first base r
      → HasNews lasts first base (reject_when b e r).1
  unfolding reject_when
  reject_HasNews true e base r v = v
  reject_HasNews false e base r v = v

  pub reject_told : (b : Bool) (e : E) → Tells lasts first (reject_when b e)
  reject_told b e = record { tells = λ base r v. reject_HasNews b e base r v }

  when-HasNews :
      (b : Bool) (m : Action E (Unit {0})) (base : List LobbyUpdate) (r : Room)
      → Tells lasts first m
      → HasNews lasts first base r
      → HasNews lasts first base (when b m r).1
  unfolding when
  when-HasNews true m base r h v = h.tells base r v
  when-HasNews false m base r h v = v

  pub when_told :
      (b : Bool) (m : Action E (Unit {0})) → Tells lasts first m → Tells lasts first (when b m)
  when_told b m h = record { tells = λ base r v. when-HasNews b m base r h v }

-- What the handlers do to the countdown.
module _ {first n : ℕ} {active : Bool} (v : IsLater first n active) where
  pub stopped : IsLater first n false
  stopped = record { next = v.next; now = λ e. absurd (cc e) }

  pub begun :
      (m : ℕ) (e : LobbyMembershipError)
      → ok_or (checked_add u64_max n 1) e ≡ ok m
      → IsLater first m true
  begun m e found =
      let same : m ≡ n + 1 = ground (arith, found) in
      record { next = omega (arith, v.next, same); now = λ _. omega (arith, v.next, same) }

module _ {first : ℕ} (s : LobbyRoomState)
    (v : IsLater first s.countdown_generation s.countdown_active) where
  pub accepted :
      (s' : LobbyRoomState) (k sequence : ℕ)
      → accept_game_sequence s k sequence ≡ ok s'
      → IsLater first s'.countdown_generation s'.countdown_active
  accepted s' k sequence e =
      let (p, _, _, after) = accept_game_sequence-ok s s' k sequence e in rw after v

pub ruleset telling = (
  pure_told, from_told, if_told, get_told, gets_told, try_told, bind_told, put_told, broadcast_told,
  spawn_told, reject_told, when_told, stopped, begun, accepted,
)
