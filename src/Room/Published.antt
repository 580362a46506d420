-- ===== src/Room/Published.antt =====
-- What the updates of a room (apps/strajer-server/src/lobby.rs) say, and handlers that publish only such
-- updates.
pub mod Tables
pub mod Handlers
pub mod Frames
pub mod Steps
use strajer.Common.{
  ℕ, ◌≤◌, ◌<◌, ◌≡◌, refl, Bool, true, false, List, [], ◌∷◌, ◌++◌, Option, none, some, Result, ok,
  err, ok_or, All, All-append,
}
use strajer.Protocol.{
  LobbyRoster, validate_lobby_chat_message, validate_lobby_countdown_seconds, max_warcraft_players,
}
use strajer.Protocol.Roster.{validate, player}
use strajer.Room.{
  Room, LobbyRoomState, LobbyUpdate, Task, send, end_game, run_countdown, run_gameplay,
  last_player_game_over, default_countdown_policy,
}
use strajer.Tunnel.{validate_sequence, validate_w3gs_frame}
use strajer.Common.Bytes.{u16_max}
use strajer.Room.News.{IsNews}
use strajer.Room.Players.{Above}
use strajer.Room.Rosters.{IsListed}
use strajer.Room.Invariant.Tables.{Entry}
use strajer.Room.Actions.{
  Action, continue, pure, from, ◌>>=◌, ◌>>◌, get_state, gets, put_state, reject_when, when,
  broadcast, spawn, test◌then◌else◌,
}

abbrev pub IsPlace : ℕ → ℕ → Type 0
IsPlace maximum k = (0 < k) × (k ≤ maximum)

-- Rosters and countdowns that the protocol accepts, chat and confirmations under an id within the
-- places, frames of the game with a number and a length that the tunnel accepts, and a departure after which the player is no longer in the roster.
abbrev pub Fits : ℕ → LobbyUpdate → Type 0
Fits maximum (LobbyUpdate.roster r) = validate maximum r ≡ ok tt
Fits maximum (LobbyUpdate.countdown n) = validate_lobby_countdown_seconds n ≡ ok tt
Fits maximum LobbyUpdate.countdown_cancelled = Unit {0}
Fits maximum (LobbyUpdate.chat k message) =
    IsPlace maximum k × (validate_lobby_chat_message message ≡ ok tt)
Fits maximum LobbyUpdate.start = Unit {0}
Fits maximum (LobbyUpdate.player_loaded k) = IsPlace maximum k
Fits maximum (LobbyUpdate.player_left k reason left) =
    IsPlace maximum k × (validate maximum left ≡ ok tt) × (player left k ≡ none)
Fits maximum (LobbyUpdate.game_frame sequence f) =
    (validate_sequence sequence ≡ ok tt) × (validate_w3gs_frame f ≡ ok tt)
Fits maximum (LobbyUpdate.game_over reason) = Unit {0}

abbrev pub FitsTask : ℕ → Task → Type 0
FitsTask maximum (send u) = Fits maximum u × IsNews true u
FitsTask maximum (end_game reason) = Unit {0}
FitsTask maximum (run_countdown generation remaining) =
    validate_lobby_countdown_seconds remaining ≡ ok tt
FitsTask maximum (run_gameplay generation) = Unit {0}
FitsTask maximum (last_player_game_over generation) = Unit {0}

-- Players who can be listed, under a positive revision.
pub record IsGood (maximum revision : ℕ) (m : List Entry) : Type 0 where
  pub above : Above 0 m
  pub listed : All (IsListed maximum) m
  pub revised : 0 < revision

pub record IsPublic (maximum : ℕ) (r : Room) : Type 0 where
  pub places : r.maximum_players ≡ maximum
  pub policy : r.countdown_policy ≡ default_countdown_policy
  pub tick : r.gameplay_policy.tick_increment_ms ≤ u16_max
  pub good : IsGood maximum r.state.revision r.state.players
  pub updates : All (Fits maximum) r.updates
  pub tasks : All (FitsTask maximum) r.tasks

-- Run on a public room, the handler leaves one.
pub record Publishes {E A : Type 0} (maximum : ℕ) (m : Action E A) : Type 0 where
  pub publishes : (r : Room) → IsPublic maximum r → IsPublic maximum (m r).1

module _ {E A : Type 0} {maximum : ℕ} where
  pub pure_published : (a : A) → Publishes maximum (pure {E = E} a)
  unfolding pure
  pure_published a = record { publishes = λ r v. v }

  pub from_published : (x : Result E A) → Publishes maximum (from x)
  unfolding from
  from_published x = record { publishes = λ r v. v }

  test_IsPublic :
      (b : Bool) (m k : Action E A) (r : Room)
      → (b ≡ true → Publishes maximum m)
      → (b ≡ false → Publishes maximum k)
      → IsPublic maximum r
      → IsPublic maximum ((test b then m else k) r).1
  unfolding test◌then◌else◌
  test_IsPublic true m k r f g v = (f refl).publishes r v
  test_IsPublic false m k r f g v = (g refl).publishes r v

  pub if_published :
      (b : Bool) (m k : Action E A)
      → (b ≡ true → Publishes maximum m)
      → (b ≡ false → Publishes maximum k)
      → Publishes maximum (test b then m else k)
  if_published b m k f g = record { publishes = λ r v. test_IsPublic b m k r f g v }

  pub get_published :
      (k : LobbyRoomState → Action E A)
      → ((s : LobbyRoomState) → IsGood maximum s.revision s.players → Publishes maximum (k s))
      → Publishes maximum (get_state >>= k)
  unfolding ◌>>=◌
  get_published k f = record { publishes = λ r v. (f r.state v.good).publishes r v }

  pub gets_published :
      {B : Type 0} (g : Room → B) (k : B → Action E A)
      → ((r : Room)
          → r.maximum_players ≡ maximum
          → r.countdown_policy ≡ default_countdown_policy
          → Publishes maximum (k (g r)))
      → Publishes maximum (gets g >>= k)
  unfolding ◌>>=◌
  gets_published g k f = record { publishes = λ r v. (f r v.places v.policy).publishes r v }

  from_IsPublic :
      {B : Type 0} (x : Result E B) (k : B → Action E A) (r : Room)
      → ((b : B) → x ≡ ok b → Publishes maximum (k b))
      → IsPublic maximum r
      → IsPublic maximum ((from x >>= k) r).1
  unfolding ◌>>=◌
  from_IsPublic (ok b) k r f v = (f b refl).publishes r v
  from_IsPublic (err e) k r f v = v

  pub try_published :
      {B : Type 0} (x : Result E B) (k : B → Action E A)
      → ((b : B) → x ≡ ok b → Publishes maximum (k b))
      → Publishes maximum (from x >>= k)
  try_published x k f = record { publishes = λ r v. from_IsPublic x k r f v }

  continue-IsPublic :
      {B : Type 0} (x : Result E B) (k : B → Action E A) (r : Room)
      → ((b : B) → Publishes maximum (k b))
      → IsPublic maximum r
      → IsPublic maximum (continue x k r).1
  continue-IsPublic (ok b) k r f v = (f b).publishes r v
  continue-IsPublic (err e) k r f v = v

  pub bind_published :
      {B : Type 0} (m : Action E B) (k : B → Action E A)
      → Publishes maximum m
      → ((b : B) → Publishes maximum (k b))
      → Publishes maximum (m >>= k)
  unfolding ◌>>=◌
  bind_published m k h f = record {
    publishes = λ r v. continue-IsPublic (m r).0 k (m r).1 f (h.publishes r v);
  }

module _ {E : Type 0} {maximum : ℕ} where
  pub put_published :
      (s : LobbyRoomState)
      → IsGood maximum s.revision s.players
      → Publishes maximum (put_state {E = E} s)
  unfolding put_state
  put_published s h = record {
    publishes = λ r v. record {
      places = v.places;
      policy = v.policy;
      tick = v.tick;
      good = h;
      updates = v.updates;
      tasks = v.tasks;
    };
  }

  pub broadcast_published :
      (u : LobbyUpdate) → Fits maximum u → Publishes maximum (broadcast {E = E} u)
  unfolding broadcast
  broadcast_published u h = record {
    publishes = λ r v. record {
      places = v.places;
      policy = v.policy;
      tick = v.tick;
      good = v.good;
      updates = All-append (Fits maximum) r.updates (u ∷ []) v.updates (h, tt);
      tasks = v.tasks;
    };
  }

  pub spawn_published : (t : Task) → FitsTask maximum t → Publishes maximum (spawn {E = E} t)
  unfolding spawn
  spawn_published t h = record {
    publishes = λ r v. record {
      places = v.places;
      policy = v.policy;
      tick = v.tick;
      good = v.good;
      updates = v.updates;
      tasks = All-append (FitsTask maximum) r.tasks (t ∷ []) v.tasks (h, tt);
    };
  }

  reject_IsPublic :
      (b : Bool) (e : E) (r : Room) → IsPublic maximum r → IsPublic maximum (reject_when b e r).1
  unfolding reject_when
  reject_IsPublic true e r v = v
  reject_IsPublic false e r v = v

  pub reject_published : (b : Bool) (e : E) → Publishes maximum (reject_when b e)
  reject_published b e = record { publishes = λ r v. reject_IsPublic b e r v }

  when-IsPublic :
      (b : Bool) (m : Action E (Unit {0})) (r : Room)
      → Publishes maximum m
      → IsPublic maximum r
      → IsPublic maximum (when b m r).1
  unfolding when
  when-IsPublic true m r h v = h.publishes r v
  when-IsPublic false m r h v = v

  pub when_published :
      (b : Bool) (m : Action E (Unit {0})) → Publishes maximum m → Publishes maximum (when b m)
  when_published b m h = record { publishes = λ r v. when-IsPublic b m r h v }

pub ruleset publishing = (
  pure_published, from_published, if_published, get_published, gets_published, try_published,
  bind_published, put_published, broadcast_published, spawn_published, reject_published,
  when_published,
)
