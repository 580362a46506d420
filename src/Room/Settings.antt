-- ===== src/Room/Settings.antt =====
-- Handlers that leave the places and the policies of a room as they are.
pub mod Steps
use strajer.Common.{
  ℕ, ◌≡◌, ◌∙◌, refl, Bool, true, false, List, [], ◌∷◌, Option, none, some, Result, ok, err,
}
use strajer.Room.{Room, LobbyRoomState, LobbyUpdate, Task, CountdownPolicy, GameplayPolicy}
use strajer.Room.Actions.{
  Action, continue, pure, from, ◌>>=◌, ◌>>◌, get_state, gets, put_state, reject_when, when,
  broadcast, spawn, test◌then◌else◌,
}

abbrev pub SameSettings : Room → Room → Type 0
SameSettings r s =
    (s.maximum_players ≡ r.maximum_players)
    × (s.countdown_policy ≡ r.countdown_policy)
    × (s.gameplay_policy ≡ r.gameplay_policy)

-- Whatever room it runs on, the handler leaves the settings as they are.
pub record Keeps {E A : Type 0} (m : Action E A) : Type 0 where
  pub keeps : (r : Room) → SameSettings r (m r).1

module _ {E A : Type 0} where
  pub pure_kept : (a : A) → Keeps (pure {E = E} a)
  unfolding pure
  pure_kept a = record { keeps = λ r. (refl, refl, refl) }

  pub from_kept : (x : Result E A) → Keeps (from x)
  unfolding from
  from_kept x = record { keeps = λ r. (refl, refl, refl) }

  test_kept :
      (b : Bool) (m k : Action E A) (r : Room)
      → Keeps m
      → Keeps k
      → SameSettings r ((test b then m else k) r).1
  unfolding test◌then◌else◌
  test_kept true m k r h h' = h.keeps r
  test_kept false m k r h h' = h'.keeps r

  pub if_kept : (b : Bool) (m k : Action E A) → Keeps m → Keeps k → Keeps (test b then m else k)
  if_kept b m k h h' = record { keeps = λ r. test_kept b m k r h h' }

module _ {E : Type 0} where
  pub get_kept : Keeps (get_state {E = E})
  unfolding get_state
  get_kept = record { keeps = λ r. (refl, refl, refl) }

  pub gets_kept : {A : Type 0} (f : Room → A) → Keeps (gets {E = E} f)
  unfolding gets
  gets_kept f = record { keeps = λ r. (refl, refl, refl) }

  pub put_kept : (s : LobbyRoomState) → Keeps (put_state {E = E} s)
  unfolding put_state
  put_kept s = record { keeps = λ r. (refl, refl, refl) }

  pub broadcast_kept : (u : LobbyUpdate) → Keeps (broadcast {E = E} u)
  unfolding broadcast
  broadcast_kept u = record { keeps = λ r. (refl, refl, refl) }

  pub spawn_kept : (t : Task) → Keeps (spawn {E = E} t)
  unfolding spawn
  spawn_kept t = record { keeps = λ r. (refl, refl, refl) }

  reject_settings : (b : Bool) (e : E) (r : Room) → SameSettings r (reject_when b e r).1
  unfolding reject_when
  reject_settings true e r = (refl, refl, refl)
  reject_settings false e r = (refl, refl, refl)

  pub reject_kept : (b : Bool) (e : E) → Keeps (reject_when b e)
  reject_kept b e = record { keeps = reject_settings b e }

  when_settings :
      (b : Bool) (m : Action E (Unit {0})) (r : Room) → Keeps m → SameSettings r (when b m r).1
  unfolding when
  when_settings true m r h = h.keeps r
  when_settings false m r h = (refl, refl, refl)

  pub when_kept : (b : Bool) (m : Action E (Unit {0})) → Keeps m → Keeps (when b m)
  when_kept b m h = record { keeps = λ r. when_settings b m r h }

module _ {E A B : Type 0} where
  continue_settings :
      (x : Result E A) (k : A → Action E B) (r : Room)
      → ((a : A) → Keeps (k a))
      → SameSettings r (continue x k r).1
  continue_settings (ok a) k r h = (h a).keeps r
  continue_settings (err e) k r h = (refl, refl, refl)

  pub bind_kept :
      (m : Action E A) (k : A → Action E B) → Keeps m → ((a : A) → Keeps (k a)) → Keeps (m >>= k)
  unfolding ◌>>=◌
  bind_kept m k h g = record {
    keeps = λ r.
        let before = h.keeps r in
        let after = continue_settings (m r).0 k (m r).1 g in
        (after.0 ∙ before.0, after.1 ∙ before.1, after.2 ∙ before.2);
  }

pub ruleset keeping = (
  pure_kept, from_kept, if_kept, get_kept, gets_kept, put_kept, broadcast_kept, spawn_kept,
  reject_kept, when_kept, bind_kept,
)
