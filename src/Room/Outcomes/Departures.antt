-- ===== src/Room/Outcomes/Departures.antt =====
-- What `leave` does to the player who leaves.
use strajer.Common.{
  ℕ, ◌+◌, ◌<◌, ◌∙◌, ap, List, [], ◌∷◌, ◌++◌, All, length, leb, append_assoc, if◌then◌else◌, ◌≡◌,
  ◌⊎◌, inl, inr, Bool-cases, refl, Bool, true, false, Option, none, some, Result, ok, err, arith,
}
use strajer.Common.Bytes.{Bytes, u64_max}
use strajer.Frame.{Frame}
use strajer.Protocol.{LobbyLeaveReason}
use strajer.Room.{Room, LobbyRoomState, LobbyUpdate, LobbyMembershipError}
use strajer.Room.Players.{get, remove, get-remove}
use strajer.Room.State
use strajer.Room.State.{session_matches, reset_game}
use strajer.Room.Actions.{when, ◌>>=◌, ◌>>◌}
use strajer.Room.Rules.{
  Leaves, pure_end, if_rule, get_rule, put_rule, put_end, broadcast_rule, broadcast_end, spawn_end,
  some_rule, from_rule, bind_rule, when_rule,
}
use strajer.Room.Play.{
  leave, remove_player, after_departure, publish_pending_actions, begin_gameplay_if_ready,
  spawn_gameplay, publish_frames, departed,
}
use strajer.Room.Invariant.{IsRoom}
use strajer.Room.Timeslots.{pending_frames}
use strajer.Room.News.{IsNews, HasNews, when_told}
use strajer.Room.News.Steps.{publish_pending_actions-Tells}
use strajer.Room.News.Cancelled.{begin-HasNews}
use strajer.Room.Outcomes.{Ends, pure_outcome, if_outcome, get_outcome, bind_outcome}

abbrev pub IsGone : ℕ → Room → Type 0
IsGone k r = get k r.state.players ≡ none

pub remove_player-IsGone :
    (k : ℕ) (reason : LobbyLeaveReason) (r : Room)
    → IsRoom r
    → Leaves (IsGone k) (remove_player k reason) r
unfolding remove_player
remove_player-IsGone k reason r v =
    let gone : get k (remove k r.state.players) ≡ none =
      ground (arith, get-remove 0 k k r.state.players v.table.above) in
    get_rule _ (
      put_rule _ _ (
        if_rule _ _ _ (λ _. broadcast_end _ gone)
          λ _. broadcast_rule _ _ (when_rule _ _ (λ _. broadcast_end _ gone) λ _. gone)))

begin_gameplay_if_ready-IsGone :
    (k : ℕ) (r : Room) → IsGone k r → Leaves (IsGone k) begin_gameplay_if_ready r
unfolding begin_gameplay_if_ready
begin_gameplay_if_ready-IsGone k r h =
    get_rule _
      (if_rule _ _ _ (λ _. pure_end _ h) λ _. some_rule _ _ _ h λ _ _. put_rule _ _ (pure_end _ h))

spawn_gameplay-IsGone :
    (k : ℕ) (o : Option ℕ) (r : Room) → IsGone k r → Leaves (IsGone k) (spawn_gameplay o) r
spawn_gameplay-IsGone k none r h = pure_end _ h
spawn_gameplay-IsGone k (some generation) r h = spawn_end _ h

pub after_departure-IsGone :
    (k : ℕ) (started : Bool) (r : Room) → IsGone k r → Leaves (IsGone k) (after_departure started) r
unfolding after_departure reset_game
after_departure-IsGone k started r h = get_rule _ (
    if_rule _ _ _ (λ _. put_end _ h)
      λ _.
        if_rule _ _ _ (λ _. spawn_end _ h)
          λ _.
            let begun = begin_gameplay_if_ready-IsGone k r h in
            bind_rule _ _ begun λ generation _. spawn_gameplay-IsGone k generation _ begun.holds)

-- What is told of a departure.
abbrev pub announced : ℕ → LobbyLeaveReason → LobbyRoomState → List LobbyUpdate
announced k reason s =
    if s.started
    then LobbyUpdate.player_left k reason (State.roster (departed k s)) ∷ []
    else LobbyUpdate.roster (State.roster (departed k s))
      ∷ (if s.countdown_active then LobbyUpdate.countdown_cancelled ∷ [] else [])

-- The player is out of the table, and the room has been told, behind other news.
pub record Left (k : ℕ) (reason : LobbyLeaveReason) (r after : Room) : Type 0 where
  pub removed : after.state.players ≡ remove k r.state.players
  pub news : List LobbyUpdate
  pub grown : after.updates ≡ r.updates ++ (news ++ announced k reason r.state)
  pub told : All (IsNews true) news

-- The queued actions could not be published, and nobody is removed.
pub record Stuck (x : Result LobbyMembershipError (Unit {0})) (r after : Room) : Type 0 where
  pub refused : (e : LobbyMembershipError) × (x ≡ err e)
  pub full : u64_max < r.state.gameplay_sequence + 1 + length r.state.pending_actions
  pub kept : after.state.players ≡ r.state.players
  pub news : List LobbyUpdate
  pub grown : after.updates ≡ r.updates ++ news
  pub told : All (IsNews true) news

abbrev pub LeaveOutcome :
    ℕ → ℕ → LobbyLeaveReason → Room → Result LobbyMembershipError (Unit {0}) → Room → Type 0
LeaveOutcome k session reason r x after =
    ((session_matches session (get k r.state.players) ≡ false) × (x ≡ ok tt) × (after ≡ r))
    ⊎ ((session_matches session (get k r.state.players) ≡ true)
        × (Left k reason r after ⊎ Stuck x r after))

-- What publishing the queued actions leaves alone.
abbrev Same : Room → Room → Type 0
Same r s =
    (s.state.players ≡ r.state.players)
    × (s.state.revision ≡ r.state.revision)
    × (s.state.started ≡ r.state.started)
    × (s.state.countdown_active ≡ r.state.countdown_active)

publish_frames-Same :
    (r : Room) (fs : List Frame) (s : Room) → Same r s → Leaves (Same r) (publish_frames fs) s
unfolding publish_frames
publish_frames-Same r [] s v = record { holds = v }
publish_frames-Same r (f ∷ fs) s v = record {
  holds =
      (get_rule _ (
        some_rule _ _ _ v
          λ n _. put_rule _ _ (broadcast_rule _ _ (publish_frames-Same r fs _ v)))).holds;
}

publish_pending_actions-Same :
    (hash : Bytes → ℕ) (time : ℕ) (r : Room) → Leaves (Same r) (publish_pending_actions hash time) r
unfolding publish_pending_actions
publish_pending_actions-Same hash time r = get_rule _ (
    put_rule _ _ (
      from_rule _ _ (refl, refl, refl, refl)
        λ frames _. publish_frames-Same r frames _ (refl, refl, refl, refl)))

remove_player_lem :
    (k : ℕ) (reason : LobbyLeaveReason) (r : Room)
    → remove_player k reason r ≡ (
      ok tt,
      record r { state = departed k r.state; updates = r.updates ++ announced k reason r.state },
    )
unfolding remove_player ◌>>=◌
remove_player_lem k reason r = ground (
  arith,
  append_assoc r.updates (LobbyUpdate.roster (State.roster (departed k r.state)) ∷ [])
      (LobbyUpdate.countdown_cancelled ∷ []),
)

-- The players and the updates do not change.
abbrev Settled : Room → Room → Type 0
Settled r s = (s.state.players ≡ r.state.players) × (s.updates ≡ r.updates)

begin_gameplay_if_ready-Settled : (r : Room) → Leaves (Settled r) begin_gameplay_if_ready r
unfolding begin_gameplay_if_ready
begin_gameplay_if_ready-Settled r =
    let h : Settled r r = (refl, refl) in
    get_rule _
      (if_rule _ _ _ (λ _. pure_end _ h) λ _. some_rule _ _ _ h λ _ _. put_rule _ _ (pure_end _ h))

spawn_gameplay-Settled :
    (r : Room) (o : Option ℕ) (s : Room) → Settled r s → Leaves (Settled r) (spawn_gameplay o) s
spawn_gameplay-Settled r none s h = pure_end _ h
spawn_gameplay-Settled r (some generation) s h = spawn_end _ h

after_departure-Settled :
    (started : Bool) (r : Room) → Leaves (Settled r) (after_departure started) r
unfolding after_departure reset_game
after_departure-Settled started r = get_rule _ (
    if_rule _ _ _ (λ _. put_end _ (refl, refl))
      λ _.
        if_rule _ _ _ (λ _. spawn_end _ (refl, refl))
          λ _.
            let begun = begin_gameplay_if_ready-Settled r in
            bind_rule _ _ begun λ generation _. spawn_gameplay-Settled r generation _ begun.holds)

announced_stays :
    (k : ℕ) (reason : LobbyLeaveReason) (r s : Room)
    → Same r s
    → announced k reason s.state ≡ announced k reason r.state
unfolding State.roster
announced_stays k reason r s h = rw (h.0, h.1, h.2, h.3) refl

-- The room that has told what was queued, as the player leaves it.
departure-Left :
    (k : ℕ) (reason : LobbyLeaveReason) (r s : Room) (started : Bool)
    → HasNews true 0 r.updates s
    → Same r s
    → Ends (λ x after. Left k reason r after) (do remove_player k reason; after_departure started) s
unfolding ◌>>=◌
departure-Left k reason r s started v same =
    let after =
      (after_departure-Settled started (record s {
        state = departed k s.state;
        updates = s.updates ++ announced k reason s.state;
      })).holds in
    record {
      holds = rw (remove_player_lem k reason s) (record {
        removed = after.0 ∙ ap (remove k) same.0;
        news = v.news;
        grown =
            after.1
            ∙ ap (λ us. us ++ announced k reason s.state) v.grown
            ∙ append_assoc r.updates v.news (announced k reason s.state)
            ∙ ap (λ us. r.updates ++ (v.news ++ us)) (announced_stays k reason r s same);
        told = v.told;
      });
    }

published-HasNews :
    (hash : Bytes → ℕ) (b : Bool) (r : Room)
    → HasNews true 0 r.updates (when b (publish_pending_actions hash 0) r).1
published-HasNews hash b r =
    (when_told b (publish_pending_actions hash 0)
        (publish_pending_actions-Tells true 0 hash 0)).tells
      r.updates r (begin-HasNews true 0 r (record { next = omega arith; now = λ _. omega arith }))

published-Stuck :
    (hash : Bytes → ℕ) (b : Bool) (r : Room) (e : LobbyMembershipError)
    → IsRoom r
    → (when b (publish_pending_actions hash 0) r).0 ≡ err e
    → u64_max < r.state.gameplay_sequence + 1 + length r.state.pending_actions
unfolding when
published-Stuck hash false r e v failed = absurd (cc failed)
published-Stuck hash true r e v failed =
    elim (Bool-cases
      (leb (r.state.gameplay_sequence + 1 + length r.state.pending_actions) u64_max)) [
        | inl few ↦
            let (_, _, _, _, _, published) =
              pending_frames hash 0 r v (omega arith) (ground arith) in
            absurd (cc (failed, published))
        | inr many ↦ ground arith
      ]

leave-Ends :
    (hash : Bytes → ℕ) (k session : ℕ) (reason : LobbyLeaveReason) (r : Room)
    → IsRoom r
    → Ends (LeaveOutcome k session reason r) (leave hash k session reason) r
unfolding leave
leave-Ends hash k session reason r v =
    let same : (b : Bool) → Leaves (Same r) (when b (publish_pending_actions hash 0)) r = λ b.
      when_rule _ _ (λ _. publish_pending_actions-Same hash 0 r) λ _. (refl, refl, refl, refl) in
    get_outcome _ (
      if_outcome _ _ _ (λ other. pure_outcome _ (inl (ground arith, refl, refl)))
        λ matches.
          bind_outcome _ _
            (λ e failed.
              let told = published-HasNews hash _ r in
              inr (
                ground arith,
                inr (record {
                  refused = (e, refl);
                  full = published-Stuck hash _ r e v failed;
                  kept = (same _).holds.0;
                  news = told.news;
                  grown = told.grown;
                  told = told.told;
                }),
              ))
            λ _ _. record {
              holds = inr (
                ground arith,
                inl
                    (departure-Left k reason r _ _ (published-HasNews hash _ r)
                      (same _).holds).holds,
              );
            })

pub leave_lem :
    (hash : Bytes → ℕ) (k session : ℕ) (reason : LobbyLeaveReason) (r : Room)
    → IsRoom r
    → LeaveOutcome k session reason r
        (leave hash k session reason r).0
        (leave hash k session reason r).1
leave_lem hash k session reason r v = (leave-Ends hash k session reason r v).holds
