-- ===== src/Room/Actions.antt =====
-- Handlers of a room: functions of the whole room that may fail. What was written before a failure
-- stays written. Opening the bind opens the other ways to build a handler too.
use strajer.Common.{Bool, true, false, [], ◌∷◌, ◌++◌, Result, ok, err}
use strajer.Room.{Room, LobbyRoomState, LobbyUpdate, Task}

abbrev pub Action : Type 0 → Type 0 → Type 0
Action E A = Room → Result E A × Room

module _ {E A : Type 0} where
  unfoldable pub pure : A → Action E A
  pure a r = (ok a, r)

  unfoldable pub from : Result E A → Action E A
  from x r = (x, r)

module _ {E : Type 0} where
  unfoldable pub get_state : Action E LobbyRoomState
  get_state r = (ok r.state, r)

  unfoldable pub gets : {A : Type 0} → (Room → A) → Action E A
  gets f r = (ok (f r), r)

  unfoldable pub put_state : LobbyRoomState → Action E (Unit {0})
  put_state s r = (ok tt, record r { state = s })

  -- `if test { return Err(e) }`
  unfoldable pub reject_when : Bool → E → Action E (Unit {0})
  reject_when true e r = (err e, r)
  reject_when false e r = (ok tt, r)

  -- `if test { body }`
  unfoldable pub when : Bool → Action E (Unit {0}) → Action E (Unit {0})
  when true m r = m r
  when false m r = (ok tt, r)

  -- `let _ = self.updates.send(update)`
  unfoldable pub broadcast : LobbyUpdate → Action E (Unit {0})
  broadcast u r = (ok tt, record r { updates = r.updates ++ (u ∷ []) })

  -- `tokio::spawn`, or what the handler itself does once the lock is released.
  unfoldable pub spawn : Task → Action E (Unit {0})
  spawn t r = (ok tt, record r { tasks = r.tasks ++ (t ∷ []) })

module _ {E A : Type 0} where
  -- `if test { .. } else { .. }`
  infix 1 test◌then◌else◌
  unfoldable pub test◌then◌else◌ : Bool → Action E A → Action E A → Action E A
  test◌then◌else◌ true m k r = m r
  test◌then◌else◌ false m k r = k r

module _ {E A B : Type 0} where
  abbrev pub continue : Result E A → (A → Action E B) → Action E B
  continue (ok a) f r = f a r
  continue (err e) f r = (err e, r)

  infixl 5 ◌>>=◌
  unfoldable pub ◌>>=◌ : Action E A → (A → Action E B) → Action E B
  unfolding pure from get_state gets put_state reject_when when broadcast spawn test◌then◌else◌
  ◌>>=◌ m f r = let (x, r') = m r in continue x f r'

module _ {E B : Type 0} where
  infixl 5 ◌>>◌
  abbrev pub ◌>>◌ : Action E (Unit {0}) → Action E B → Action E B
  m >> k = m >>= λ _. k
