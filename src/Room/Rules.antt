-- ===== src/Room/Rules.antt =====
-- Rules for a property of the room that a handler leaves behind, one for each way to build a handler.
use strajer.Common.{
  ◌≡◌, refl, Bool, true, false, [], ◌∷◌, ◌++◌, Option, none, some, Result, ok, err, ok_or,
}
use strajer.Room.{Room, LobbyRoomState, LobbyUpdate, Task}
use strajer.Room.Actions.{
  Action, continue, pure, from, ◌>>=◌, ◌>>◌, get_state, gets, put_state, reject_when, when,
  broadcast, test◌then◌else◌, spawn,
}

-- Run on the room `r`, the handler `m` leaves a room that has `P`, whether it fails or not.
pub record Leaves {ℓ} {E A : Type 0} (P : Room → Type ℓ) (m : Action E A) (r : Room) : Type ℓ where
  pub holds : P (m r).1

abbrev pub sent : Room → LobbyUpdate → Room
sent r u = record r { updates = r.updates ++ (u ∷ []) }

abbrev pub spawned : Room → Task → Room
spawned r t = record r { tasks = r.tasks ++ (t ∷ []) }

module _ {ℓ} {E A : Type 0} {P : Room → Type ℓ} {r : Room} where
  pub pure_end : (a : A) → P r → Leaves P (pure {E = E} a) r
  unfolding pure
  pure_end a h = record { holds = h }

  pub if_rule :
      (b : Bool) (m k : Action E A)
      → (b ≡ true → Leaves P m r)
      → (b ≡ false → Leaves P k r)
      → Leaves P (test b then m else k) r
  unfolding test◌then◌else◌
  if_rule true m k f g = record { holds = (f refl).holds }
  if_rule false m k f g = record { holds = (g refl).holds }

  pub get_rule :
      (k : LobbyRoomState → Action E A) → Leaves P (k r.state) r → Leaves P (get_state >>= k) r
  unfolding ◌>>=◌
  get_rule k h = record { holds = h.holds }

  pub gets_rule :
      {B : Type 0} (f : Room → B) (k : B → Action E A)
      → Leaves P (k (f r)) r
      → Leaves P (gets f >>= k) r
  unfolding ◌>>=◌
  gets_rule f k h = record { holds = h.holds }

  pub put_rule :
      (s : LobbyRoomState) (k : Action E A)
      → Leaves P k (record r { state = s })
      → Leaves P (put_state s >> k) r
  unfolding ◌>>=◌
  put_rule s k h = record { holds = h.holds }

  pub broadcast_rule :
      (u : LobbyUpdate) (k : Action E A) → Leaves P k (sent r u) → Leaves P (broadcast u >> k) r
  unfolding ◌>>=◌
  broadcast_rule u k h = record { holds = h.holds }

  pub spawn_rule :
      (t : Task) (k : Action E A) → Leaves P k (spawned r t) → Leaves P (spawn t >> k) r
  unfolding ◌>>=◌
  spawn_rule t k h = record { holds = h.holds }

  pub reject_rule :
      (b : Bool) (e : E) (k : Action E A)
      → P r
      → (b ≡ false → Leaves P k r)
      → Leaves P (reject_when b e >> k) r
  unfolding ◌>>=◌
  reject_rule true e k h f = record { holds = h }
  reject_rule false e k h f = record { holds = (f refl).holds }

  pub from_rule :
      {B : Type 0} (x : Result E B) (k : B → Action E A)
      → P r
      → ((b : B) → x ≡ ok b → Leaves P (k b) r)
      → Leaves P (from x >>= k) r
  unfolding ◌>>=◌
  from_rule (ok b) k h f = record { holds = (f b refl).holds }
  from_rule (err e) k h f = record { holds = h }

  pub some_rule :
      {B : Type 0} (o : Option B) (e : E) (k : B → Action E A)
      → P r
      → ((b : B) → o ≡ some b → Leaves P (k b) r)
      → Leaves P (from (ok_or o e) >>= k) r
  unfolding ◌>>=◌
  some_rule (some b) e k h f = record { holds = (f b refl).holds }
  some_rule none e k h f = record { holds = h }

  continue-Leaves :
      {B : Type 0} (x : Result E B) (k : B → Action E A)
      → P r
      → ((b : B) → x ≡ ok b → Leaves P (k b) r)
      → P (continue x k r).1
  continue-Leaves (ok b) k h f = (f b refl).holds
  continue-Leaves (err e) k h f = h

module _ {ℓ} {E A B : Type 0} {P : Room → Type ℓ} {r : Room} where
  -- The rest of a block runs in the room that its first part leaves, if that did not fail.
  pub bind_rule :
      (m : Action E B) (k : B → Action E A)
      → Leaves P m r
      → ((b : B) → (m r).0 ≡ ok b → Leaves P (k b) (m r).1)
      → Leaves P (m >>= k) r
  unfolding ◌>>=◌
  bind_rule m k h f = record { holds = continue-Leaves (m r).0 k h.holds f }

  -- After a part that cannot fail, whatever it leaves.
  pub then_rule :
      (m : Action E B) (k : B → Action E A) (b : B)
      → (m r).0 ≡ ok b
      → Leaves P (k b) (m r).1
      → Leaves P (m >>= k) r
  unfolding ◌>>=◌
  then_rule m k b e h = record { holds = rw e h.holds }

module _ {ℓ} {E : Type 0} {P : Room → Type ℓ} {r : Room} where
  pub put_end : (s : LobbyRoomState) → P (record r { state = s }) → Leaves P (put_state {E = E} s) r
  unfolding put_state
  put_end s h = record { holds = h }

  pub broadcast_end : (u : LobbyUpdate) → P (sent r u) → Leaves P (broadcast {E = E} u) r
  unfolding broadcast
  broadcast_end u h = record { holds = h }

  pub spawn_end : (t : Task) → P (spawned r t) → Leaves P (spawn {E = E} t) r
  unfolding spawn
  spawn_end t h = record { holds = h }

  pub when_rule :
      (b : Bool) (m : Action E (Unit {0}))
      → (b ≡ true → Leaves P m r)
      → (b ≡ false → P r)
      → Leaves P (when b m) r
  unfolding when
  when_rule true m f g = record { holds = (f refl).holds }
  when_rule false m f g = record { holds = g refl }
