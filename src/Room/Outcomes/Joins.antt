-- ===== src/Room/Outcomes/Joins.antt =====
-- What `join` returns, on every branch.
use strajer.Common.{
  ℕ, zero, suc, ◌+◌, ◌≤◌, ◌<◌, ◌≡◌, refl, true, false, List, [], ◌∷◌, ◌++◌, none, some, Result, ok,
  err, length, arith, checked_add, checked_add-some, ◌⊎◌, inl, inr,
}
use strajer.Common.Bytes.{u64_max}
use strajer.Common.Texts.{Text}
use strajer.Room.{
  Room, ConnectedPlayer, LobbyUpdate, send, LobbyJoinError, full, has_started, countdown_running,
  duplicate_player_name, session_id_exhausted,
}
use strajer.Room.Players.{contains_key}
use strajer.Room.State
use strajer.Room.Lobby.{join, joined, first_free, name_taken, LobbyMembership}
use strajer.Room.Invariant.Tables.{first_free_lem}
use strajer.Room.Outcomes.{
  Ends, pure_outcome, get_outcome, gets_outcome, put_outcome, spawn_outcome, reject_outcome,
  some_outcome,
}

-- Every candidate is taken.
abbrev pub AllTaken : ℕ → List (ℕ × ConnectedPlayer) → Type 0
AllTaken maximum m = (k : ℕ) → 1 ≤ k → k ≤ maximum → contains_key k m ≡ true

-- Why a join is refused.
abbrev pub Refused : Text → Room → LobbyJoinError → Type 0
Refused name r full =
    (r.maximum_players ≤ length r.state.players) ⊎ AllTaken r.maximum_players r.state.players
Refused name r has_started = r.state.started ≡ true
Refused name r countdown_running = r.state.countdown_active ≡ true
Refused name r duplicate_player_name = name_taken name r.state.players ≡ true
Refused name r session_id_exhausted = u64_max ≤ r.state.next_session_id

-- The membership, and the room with the player in it at the smallest free id.
pub record Admitted (name : Text) (r : Room) (m : LobbyMembership) (after : Room) : Type 0 where
  pub waiting : (r.state.started ≡ false) × (r.state.countdown_active ≡ false)
  pub new_name : name_taken name r.state.players ≡ false
  pub places : length r.state.players < r.maximum_players
  pub in_range : (1 ≤ m.player_id) × (m.player_id ≤ r.maximum_players)
  pub free : contains_key m.player_id r.state.players ≡ false
  pub smallest : (k : ℕ) → 1 ≤ k → k < m.player_id → contains_key k r.state.players ≡ true
  pub session : m.session_id ≡ r.state.next_session_id
  pub room : after ≡ record r {
    state = joined m.player_id (m.session_id + 1) name r.state;
    tasks = r.tasks ++ (send (LobbyUpdate.roster m.roster) ∷ []);
  }
  pub roster : m.roster ≡ State.roster after.state

abbrev pub JoinOutcome : Text → Room → Result LobbyJoinError LobbyMembership → Room → Type 0
JoinOutcome name r (ok m) after = Admitted name r m after
JoinOutcome name r (err e) after = (after ≡ r) × Refused name r e

first_free-none :
    (n candidate k : ℕ) (m : List (ℕ × ConnectedPlayer))
    → first_free n candidate m ≡ none
    → candidate ≤ k
    → k < candidate + n
    → contains_key k m ≡ true
unfolding first_free
first_free-none zero candidate k m e low high = absurd (omega arith)
first_free-none (suc n) candidate k m e low high =
    ground (arith, first_free-none n (candidate + 1) k m)

first_free_smallest :
    (n candidate j k : ℕ) (m : List (ℕ × ConnectedPlayer))
    → first_free n candidate m ≡ some j
    → candidate ≤ k
    → k < j
    → contains_key k m ≡ true
unfolding first_free
first_free_smallest zero candidate j k m e low high = absurd (cc e)
first_free_smallest (suc n) candidate j k m e low high =
    ground (arith, first_free_smallest n (candidate + 1) j k m)

checked_add-none : (a b : ℕ) → checked_add u64_max a b ≡ none → u64_max < a + b
checked_add-none a b e = ground arith

abbrev membership : ℕ → Text → Room → LobbyMembership
membership k name r = record {
  player_id = k;
  session_id = r.state.next_session_id;
  roster = State.roster (joined k (r.state.next_session_id + 1) name r.state);
  updates = length r.updates;
}

admitted :
    (name : Text) (r : Room) (k next : ℕ) (m : LobbyMembership) (after : Room)
    → r.state.started ≡ false
    → r.state.countdown_active ≡ false
    → name_taken name r.state.players ≡ false
    → length r.state.players < r.maximum_players
    → first_free r.maximum_players 1 r.state.players ≡ some k
    → next ≡ r.state.next_session_id + 1
    → m ≡ membership k name r
    → after ≡ record r {
      state = joined k (r.state.next_session_id + 1) name r.state;
      tasks = r.tasks ++ (send (LobbyUpdate.roster m.roster) ∷ []);
    }
    → Admitted name r m after
admitted name r k next m after waiting quiet new_name places found e em ea =
    let (low, high, unused) = first_free_lem r.maximum_players 1 r.state.players k found in
    record {
      waiting = (waiting, quiet);
      new_name = new_name;
      places = places;
      in_range = rw em (low, omega arith);
      free = rw em unused;
      smallest =
          λ i one less. first_free_smallest r.maximum_players 1 k i _ found one (rw em at less);
      session = rw em refl;
      room = ground (arith, ea, em);
      roster = ground (arith, ea, em);
    }

join-Ends : (name : Text) (r : Room) → Ends (JoinOutcome name r) (join name) r
unfolding join
join-Ends name r = gets_outcome _ _ (
    gets_outcome _ _ (
      get_outcome _ (
        reject_outcome _ _ _ (λ started. (refl, started))
          λ waiting.
            reject_outcome _ _ _ (λ counting. (refl, counting))
              λ quiet.
                reject_outcome _ _ _ (λ many. (refl, inl (ground arith)))
                  λ room.
                    reject_outcome _ _ _ (λ taken. (refl, taken))
                      λ new_name.
                        some_outcome _ _ _
                          (λ none_free. (
                            refl,
                            inr (λ k low high.
                                first_free-none r.maximum_players 1 k _ none_free low
                                  (omega arith)),
                          ))
                          λ k found.
                            some_outcome _ _ _
                              (λ over. (refl, omega (arith, checked_add-none _ _ over)))
                              λ next e. put_outcome _ _ (
                                spawn_outcome _ _ (
                                  pure_outcome _ (
                                    let more = (checked_add-some _ _ _ next e).0 in
                                    admitted name r k next _ _ waiting quiet new_name (ground arith)
                                      found more (rw more refl) (rw more refl)))))))

-- A join is refused for one of its five reasons, with that reason true of the room and the room
-- unchanged; or the room waits without a countdown, has a place left and no player of that name, and the
-- join admits the player at the smallest free id from 1 to the maximum, under the next session
-- number, with the room's new roster in the membership and in the update that is sent.
pub join_lem : (name : Text) (r : Room) → JoinOutcome name r (join name r).0 (join name r).1
join_lem name r = (join-Ends name r).holds
