-- ===== src/Room/Outcomes/Cleanups.antt =====
-- What is left of a session after `leave`, whether it succeeds or not.
use strajer.Common.{
  ℕ, ◌+◌, ◌≤◌, ◌≡◌, refl, inl, inr, Bool, true, false, List, [], ◌∷◌, Result, ok, err, arith,
  Bool-cases, leb,
}
use strajer.Common.Bytes.{Bytes, u64_max}
use strajer.Frame.{Frame}
use strajer.Game.Timeslots.{incoming_action_frames_lem}
use strajer.Protocol.{LobbyLeaveReason}
use strajer.Room.{Room, LobbyMembershipError, gameplay_sequence_exhausted}
use strajer.Room.Players.{get}
use strajer.Room.State.{session_matches}
use strajer.Room.Actions.{when, ◌>>=◌}
use strajer.Room.Rules.{Leaves, bind_rule, when_rule}
use strajer.Room.Play.{leave, publish_frames, publish_pending_actions}
use strajer.Room.Timeslots.{with_frames, publish_frame, pending_published}
use strajer.Room.Invariant.{IsRoom}
use strajer.Room.Invariant.Steps.{publish_pending_actions-IsRoom}
use strajer.Room.Outcomes.{Ends, pure_outcome, if_outcome, get_outcome, bind_outcome}
use strajer.Room.Outcomes.Departures.{IsGone, remove_player-IsGone, after_departure-IsGone}

-- An error says that the numbers of the frames are used up.
abbrev Exhausted : Result LobbyMembershipError (Unit {0}) → Room → Type 0
Exhausted (ok u) r = Unit {0}
Exhausted (err e) r = u64_max ≤ r.state.gameplay_sequence

publish_frame_full :
    (f : Frame) (fs : List Frame) (r : Room)
    → leb (r.state.gameplay_sequence + 1) u64_max ≡ false
    → publish_frames (f ∷ fs) r ≡ (err gameplay_sequence_exhausted, r)
unfolding publish_frames ◌>>=◌
publish_frame_full f fs r h = rw h refl

publish_frames-Exhausted :
    (fs : List Frame) (r : Room) → Exhausted (publish_frames fs r).0 (publish_frames fs r).1
publish_frames-Exhausted [] r = unfold publish_frames in tt
publish_frames-Exhausted (f ∷ fs) r =
    elim (Bool-cases (leb (r.state.gameplay_sequence + 1) u64_max)) [
      | inl fits ↦
          rw (publish_frame f fs r (ground arith))
            (publish_frames-Exhausted fs (with_frames (f ∷ []) r))
      | inr full ↦ rw (publish_frame_full f fs r full) (ground arith)
    ]

-- No player is in the room under this id and session, or the numbers of the frames are used up.
pub data CleanedUp (k session : ℕ) (r : Room) : Type 0 where
  gone : session_matches session (get k r.state.players) ≡ false → CleanedUp k session r
  exhausted : u64_max ≤ r.state.gameplay_sequence → CleanedUp k session r

gone-CleanedUp : (k session : ℕ) (r : Room) → IsGone k r → CleanedUp k session r
gone-CleanedUp k session r h = gone (ground arith)

module _ (hash : Bytes → ℕ) where
  publish-Exhausted :
      (r : Room)
      → IsRoom r
      → Exhausted (publish_pending_actions hash 0 r).0 (publish_pending_actions hash 0 r).1
  publish-Exhausted r v =
      let (fs, gs, e, slot, all, short) =
        incoming_action_frames_lem hash 0 r.state.pending_actions (omega arith) v.pending.valid in
      rw (pending_published hash 0 fs r e) (publish_frames-Exhausted fs _)

  when-Exhausted :
      (b : Bool) (r : Room) (e : LobbyMembershipError)
      → IsRoom r
      → (when b (publish_pending_actions hash 0) r).0 ≡ err e
      → u64_max ≤ (when b (publish_pending_actions hash 0) r).1.state.gameplay_sequence
  unfolding when
  when-Exhausted true r e v h = rw h at (publish-Exhausted r v)
  when-Exhausted false r e v h = cc

  -- In a room that satisfies the invariant, whatever `leave` returns, the session is no longer in the room
  -- afterwards, unless the 64-bit numbers of the frames are used up.
  pub leave-CleanedUp :
      (k session : ℕ) (reason : LobbyLeaveReason) (r : Room)
      → IsRoom r
      → CleanedUp k session (leave hash k session reason r).1
  unfolding leave
  leave-CleanedUp k session reason r v =
      let published : (b : Bool) → Leaves IsRoom (when b (publish_pending_actions hash 0)) r =
        λ b. when_rule _ _ (λ _. publish_pending_actions-IsRoom hash 0 r v) λ _. v in
      let done : Ends (λ x s. CleanedUp k session s) (leave hash k session reason) r =
        get_outcome _ (
          if_outcome _ _ _ (λ other. pure_outcome _ (gone (ground arith)))
            λ _.
              bind_outcome _ _ (λ e h. exhausted (when-Exhausted _ r e v h))
                λ _ _.
                  (let removed = remove_player-IsGone k reason _ (published _).holds in
                    let after =
                      bind_rule _ _ removed
                        λ _ _. after_departure-IsGone k r.state.started _ removed.holds in
                    record { holds = gone-CleanedUp k session _ after.holds })) in
      done.holds
