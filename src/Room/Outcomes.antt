-- ===== src/Room/Outcomes.antt =====
-- Rules for what a handler returns together with the room that it leaves, in the manner of Rules.
pub mod Joins
pub mod Submissions
pub mod Reports
pub mod Departures
pub mod Cleanups
use strajer.Common.{◌≡◌, refl, Bool, true, false, Option, none, some, Result, ok, err, ok_or}
use strajer.Room.{Room, LobbyRoomState, LobbyUpdate, Task}
use strajer.Room.Rules.{spawned, sent}
use strajer.Room.Actions.{
  Action, continue, pure, from, ◌>>=◌, ◌>>◌, get_state, gets, put_state, reject_when, when,
  broadcast, spawn, test◌then◌else◌,
}

-- Run on the room `r`, the handler `m` ends with an outcome and a room that `P` relates.
pub record Ends {ℓ} {E A : Type 0} (P : Result E A → Room → Type ℓ) (m : Action E A) (r : Room)
    : Type ℓ where
  pub holds : P (m r).0 (m r).1

module _ {ℓ} {E A : Type 0} {P : Result E A → Room → Type ℓ} {r : Room} where
  pub pure_outcome : (a : A) → P (ok a) r → Ends P (pure a) r
  unfolding pure
  pure_outcome a h = record { holds = h }

  pub if_outcome :
      (b : Bool) (m k : Action E A)
      → (b ≡ true → Ends P m r)
      → (b ≡ false → Ends P k r)
      → Ends P (test b then m else k) r
  unfolding test◌then◌else◌
  if_outcome true m k f g = record { holds = (f refl).holds }
  if_outcome false m k f g = record { holds = (g refl).holds }

  pub get_outcome :
      (k : LobbyRoomState → Action E A) → Ends P (k r.state) r → Ends P (get_state >>= k) r
  unfolding ◌>>=◌
  get_outcome k h = record { holds = h.holds }

  pub gets_outcome :
      {B : Type 0} (f : Room → B) (k : B → Action E A)
      → Ends P (k (f r)) r
      → Ends P (gets f >>= k) r
  unfolding ◌>>=◌
  gets_outcome f k h = record { holds = h.holds }

  pub put_outcome :
      (s : LobbyRoomState) (k : Action E A)
      → Ends P k (record r { state = s })
      → Ends P (put_state s >> k) r
  unfolding ◌>>=◌
  put_outcome s k h = record { holds = h.holds }

  pub spawn_outcome : (t : Task) (k : Action E A) → Ends P k (spawned r t) → Ends P (spawn t >> k) r
  unfolding ◌>>=◌
  spawn_outcome t k h = record { holds = h.holds }

  pub reject_outcome :
      (b : Bool) (e : E) (k : Action E A)
      → (b ≡ true → P (err e) r)
      → (b ≡ false → Ends P k r)
      → Ends P (reject_when b e >> k) r
  unfolding ◌>>=◌
  reject_outcome true e k h f = record { holds = h refl }
  reject_outcome false e k h f = record { holds = (f refl).holds }

  pub from_outcome :
      {B : Type 0} (x : Result E B) (k : B → Action E A)
      → ((e : E) → x ≡ err e → P (err e) r)
      → ((b : B) → x ≡ ok b → Ends P (k b) r)
      → Ends P (from x >>= k) r
  unfolding ◌>>=◌
  from_outcome (ok b) k h f = record { holds = (f b refl).holds }
  from_outcome (err e) k h f = record { holds = h e refl }

  pub some_outcome :
      {B : Type 0} (o : Option B) (e : E) (k : B → Action E A)
      → (o ≡ none → P (err e) r)
      → ((b : B) → o ≡ some b → Ends P (k b) r)
      → Ends P (from (ok_or o e) >>= k) r
  unfolding ◌>>=◌
  some_outcome (some b) e k h f = record { holds = (f b refl).holds }
  some_outcome none e k h f = record { holds = h refl }

module _ {ℓ} {E : Type 0} {P : Result E (Unit {0}) → Room → Type ℓ} {r : Room} where
  pub last_put : (s : LobbyRoomState) → P (ok tt) (record r { state = s }) → Ends P (put_state s) r
  unfolding put_state
  last_put s h = record { holds = h }

  pub last_spawn :
      (b : Bool) (t : Task)
      → (b ≡ true → P (ok tt) (spawned r t))
      → (b ≡ false → P (ok tt) r)
      → Ends P (when b (spawn t)) r
  unfolding when spawn
  last_spawn true t f g = record { holds = f refl }
  last_spawn false t f g = record { holds = g refl }

module _ {ℓ} {E A B : Type 0} {P : Result E A → Room → Type ℓ} where
  continue-Ends :
      (x : Result E B) (s : Room) (k : B → Action E A)
      → ((e : E) → x ≡ err e → P (err e) s)
      → ((b : B) → x ≡ ok b → Ends P (k b) s)
      → P (continue x k s).0 (continue x k s).1
  continue-Ends (ok b) s k h f = (f b refl).holds
  continue-Ends (err e) s k h f = h e refl

  pub bind_outcome :
      {r : Room} (m : Action E B) (k : B → Action E A)
      → ((e : E) → (m r).0 ≡ err e → P (err e) (m r).1)
      → ((b : B) → (m r).0 ≡ ok b → Ends P (k b) (m r).1)
      → Ends P (m >>= k) r
  unfolding ◌>>=◌
  bind_outcome {r = r} m k h f = record { holds = continue-Ends (m r).0 (m r).1 k h f }
