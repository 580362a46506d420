-- ===== src/Room/Outcomes/Submissions.antt =====
-- What `submit_action` and `submit_keepalive` return, on every branch.
use strajer.Common.{
  ℕ, ◌+◌, ◌≤◌, ◌≡◌, ◌≢◌, refl, Bool, true, false, ◌||◌, [], ◌∷◌, ◌++◌, some, Result, ok, err,
  length, arith, ◌⊎◌, inl, inr, leb, ltb, ◌==◌, Option-cases,
}
use strajer.Common.Bytes.{u64_max}
use strajer.Game.{PlayerAction}
use strajer.Room.{
  Room, ConnectedPlayer, LobbyRoomState, LobbyMembershipError, unknown_session, game_not_running,
  action_player_mismatch, invalid_game_sequence, game_sequence_exhausted, action_queue_full,
  checksum_queue_full, max_pending_game_actions, max_pending_game_action_bytes,
}
use strajer.Room.Players.{get, modify}
use strajer.Room.State.{
  session_matches, require_active_session, accept_game_sequence, with_sequence, saturating_add,
}
use strajer.Room.Play.{submit_action}
use strajer.Room.Invariant.Play.{accept_game_sequence-ok}
use strajer.Room.Outcomes.{Ends, get_outcome, reject_outcome, from_outcome, last_put}

-- The sequence number is the one behind the player's last.
abbrev pub InSequence : LobbyRoomState → ℕ → ℕ → Type 0
InSequence s k sequence =
    (p : ConnectedPlayer) × (get k s.players ≡ some p) × (sequence ≡ p.last_game_sequence + 1)

abbrev pub OutOfSequence : LobbyRoomState → ℕ → ℕ → LobbyMembershipError → Type 0
OutOfSequence s k sequence (invalid_game_sequence expected actual) =
    (p : ConnectedPlayer) × (get k s.players ≡ some p)
    × (expected ≡ p.last_game_sequence + 1)
    × (actual ≡ sequence)
    × (sequence ≢ expected)
OutOfSequence s k sequence game_sequence_exhausted =
    (p : ConnectedPlayer) × (get k s.players ≡ some p) × (u64_max ≤ p.last_game_sequence)
OutOfSequence s k sequence e = ⊥

sequence_refused :
    (s : LobbyRoomState) (k sequence : ℕ) (p : ConnectedPlayer) (e : LobbyMembershipError)
    → get k s.players ≡ some p
    → accept_game_sequence s k sequence ≡ err e
    → ((e ≡ game_sequence_exhausted) × (u64_max ≤ p.last_game_sequence))
      ⊎ ((e ≡ invalid_game_sequence (p.last_game_sequence + 1) sequence)
          × (sequence ≢ p.last_game_sequence + 1))
unfolding accept_game_sequence
sequence_refused s k sequence p e found refused = ground arith

pub accept_game_sequence-err :
    (s : LobbyRoomState) (k session sequence : ℕ) (e : LobbyMembershipError)
    → require_active_session s k session ≡ ok tt
    → accept_game_sequence s k sequence ≡ err e
    → OutOfSequence s k sequence e
unfolding require_active_session
accept_game_sequence-err s k session sequence e active refused =
    elim (Option-cases (get k s.players)) [
      | inl missing ↦ absurd (ground (arith, missing))
      | inr (p, found) ↦ elim (sequence_refused s k sequence p e found refused) [
        | inl (same, over) ↦ rw same (p, found, over)
        | inr (same, differ) ↦ rw same (p, found, refl, refl, differ)
      ]
    ]

-- The sender is a member under this session of a running game.
abbrev pub Playing : LobbyRoomState → ℕ → ℕ → Type 0
Playing s k session =
    (session_matches session (get k s.players) ≡ true)
    × (s.gameplay_active ≡ true)
    × (s.game_ended ≡ false)

-- Why a submission is refused; `full` says when there is no room, and `mine` when it is of the sender.
abbrev pub NotSubmitted :
    Bool → Bool → Bool → LobbyRoomState → ℕ → ℕ → ℕ → LobbyMembershipError → Type 0
NotSubmitted mine actions_full reports_full s k session sequence unknown_session =
    session_matches session (get k s.players) ≡ false
NotSubmitted mine actions_full reports_full s k session sequence game_not_running =
    (s.gameplay_active ≡ false) ⊎ (s.game_ended ≡ true)
NotSubmitted mine actions_full reports_full s k session sequence action_player_mismatch =
    mine ≡ false
NotSubmitted mine actions_full reports_full s k session sequence action_queue_full =
    actions_full ≡ true
NotSubmitted mine actions_full reports_full s k session sequence checksum_queue_full =
    reports_full ≡ true
NotSubmitted mine actions_full reports_full s k session sequence e = OutOfSequence s k sequence e

abbrev pub no_room_for : LobbyRoomState → PlayerAction → Bool
no_room_for s action =
    leb max_pending_game_actions (length s.pending_actions)
    || ltb max_pending_game_action_bytes
        (saturating_add s.pending_action_bytes (length action.bytes + 3))

abbrev pub ActionOutcome :
    ℕ → ℕ → ℕ → PlayerAction → Room → Result LobbyMembershipError (Unit {0}) → Room → Type 0
ActionOutcome k session sequence action r (ok u) after =
    Playing r.state k session
    × (action.player_id ≡ k)
    × (no_room_for r.state action ≡ false)
    × InSequence r.state k sequence
    × (after ≡ record r {
      state = record r.state {
        players = modify k (with_sequence sequence) r.state.players;
        pending_action_bytes = r.state.pending_action_bytes + (length action.bytes + 3);
        pending_actions = r.state.pending_actions ++ (action ∷ []);
      };
    })
ActionOutcome k session sequence action r (err e) after =
    (after ≡ r)
    × NotSubmitted (action.player_id == k) (no_room_for r.state action) false r.state k session
        sequence e

pub active_session :
    (s : LobbyRoomState) (k session : ℕ) (u : Unit {0})
    → require_active_session s k session ≡ ok u
    → session_matches session (get k s.players) ≡ true
unfolding require_active_session
active_session s k session u e = ground arith

pub no_session :
    (s : LobbyRoomState) (k session : ℕ) (e : LobbyMembershipError)
    → require_active_session s k session ≡ err e
    → (e ≡ unknown_session) × (session_matches session (get k s.players) ≡ false)
unfolding require_active_session
no_session s k session e h = ground arith

-- The reasons that the number gives are reasons of the whole.
pub out_of_sequence :
    (mine actions_full reports_full : Bool) (s : LobbyRoomState) (k session sequence : ℕ)
    (e : LobbyMembershipError)
    → OutOfSequence s k sequence e
    → NotSubmitted mine actions_full reports_full s k session sequence e
out_of_sequence m a b s k session sequence (invalid_game_sequence expected actual) h = h
out_of_sequence m a b s k session sequence game_sequence_exhausted h = h
out_of_sequence m a b s k session sequence _ h = absurd h

submit_action-Ends :
    (k session sequence : ℕ) (action : PlayerAction) (r : Room)
    → Ends (ActionOutcome k session sequence action r) (submit_action k session sequence action) r
unfolding submit_action
submit_action-Ends k session sequence action r = get_outcome _ (
    from_outcome _ _
      (λ e h. let (same, missing) = no_session r.state k session e h in (refl, rw same missing))
      λ u active.
        reject_outcome _ _ _ (λ idle. (refl, ground arith))
          λ running.
            reject_outcome _ _ _ (λ other. (refl, ground arith))
              λ mine.
                reject_outcome _ _ _ (λ many. (refl, many))
                  λ room.
                    from_outcome _ _
                      (λ e h. (
                        refl,
                        out_of_sequence _ _ _ r.state k session sequence e
                            (accept_game_sequence-err r.state k session sequence e active h),
                      ))
                      λ s' h.
                        let (p, found, succeeds, changed) =
                          accept_game_sequence-ok r.state s' k sequence h in
                        last_put _ (
                          (active_session r.state k session u active, ground arith, ground arith),
                          ground arith,
                          room,
                          (p, found, succeeds),
                          rw changed refl,
                        ))

-- An action is queued only for a member of a running game under its session, that sends its own id
-- and the number behind its last, and while the queue has room; then the action is the last of
-- the queue, its bytes are counted, and the number is noted. Every refusal leaves the room unchanged and
-- gives a reason that is true of it.
pub submit_action_lem :
    (k session sequence : ℕ) (action : PlayerAction) (r : Room)
    → ActionOutcome k session sequence action r
        (submit_action k session sequence action r).0
        (submit_action k session sequence action r).1
submit_action_lem k session sequence action r =
    (submit_action-Ends k session sequence action r).holds
