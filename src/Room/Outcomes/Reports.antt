-- ===== src/Room/Outcomes/Reports.antt =====
-- What `submit_keepalive` returns, on every branch.
use strajer.Common.{
  ℕ, ◌≡◌, ◌≢◌, refl, true, false, List, [], ◌∷◌, ◌++◌, none, Result, ok, err, arith, if◌then◌else◌,
}
use strajer.Protocol.{desync}
use strajer.Room.{Room, ConnectedPlayer, LobbyRoomState, end_game, LobbyMembershipError}
use strajer.Room.Players.{get, modify, get-modify}
use strajer.Room.State.{accept_game_sequence, with_sequence}
use strajer.Room.Play.{submit_keepalive, push_checksum, checksums_full}
use strajer.Room.Consensus.{consume_checksum_consensus}
use strajer.Room.Invariant.Play.{accept_game_sequence-ok}
use strajer.Room.Outcomes.{
  Ends, get_outcome, put_outcome, reject_outcome, from_outcome, some_outcome, last_spawn,
}
use strajer.Room.Outcomes.Submissions.{
  InSequence, NotSubmitted, Playing, accept_game_sequence-err, active_session, no_session,
  out_of_sequence,
}

-- The players with the sender's number noted and its report at the end of its queue.
abbrev pub with_report : ℕ → ℕ → ℕ → LobbyRoomState → List (ℕ × ConnectedPlayer)
with_report k sequence checksum s =
    modify k (push_checksum checksum) (modify k (with_sequence sequence) s.players)

abbrev pub KeepaliveOutcome :
    ℕ → ℕ → ℕ → ℕ → Room → Result LobbyMembershipError (Unit {0}) → Room → Type 0
KeepaliveOutcome k session sequence checksum r (ok u) after =
    let (mismatch, players) =
      consume_checksum_consensus (with_report k sequence checksum r.state) in
    Playing r.state k session
    × (checksums_full (get k r.state.players) ≡ false)
    × InSequence r.state k sequence
    × (after ≡ record r {
      state = record r.state { players = players };
      tasks = if mismatch then r.tasks ++ (end_game desync ∷ []) else r.tasks;
    })
KeepaliveOutcome k session sequence checksum r (err e) after =
    (after ≡ r)
    × NotSubmitted true false (checksums_full (get k r.state.players)) r.state k session sequence e

still_there :
    (r : Room) (k sequence : ℕ) (s' : LobbyRoomState)
    → accept_game_sequence r.state k sequence ≡ ok s'
    → get k s'.players ≢ none
still_there r k sequence s' h missing =
    let (p, found, _, changed) = accept_game_sequence-ok r.state s' k sequence h in
    ground (arith, changed, get-modify k k (with_sequence sequence) r.state.players p found)

submit_keepalive-Ends :
    (k session sequence checksum : ℕ) (r : Room)
    → Ends
        (KeepaliveOutcome k session sequence checksum r)
        (submit_keepalive k session sequence checksum)
        r
unfolding submit_keepalive
submit_keepalive-Ends k session sequence checksum r = get_outcome _ (
    from_outcome _ _
      (λ e h. let (same, missing) = no_session r.state k session e h in (refl, rw same missing))
      λ u active.
        reject_outcome _ _ _ (λ idle. (refl, ground arith))
          λ running.
            reject_outcome _ _ _ (λ many. (refl, many))
              λ room.
                from_outcome _ _
                  (λ e h. (
                    refl,
                    out_of_sequence _ _ _ r.state k session sequence e
                        (accept_game_sequence-err r.state k session sequence e active h),
                  ))
                  λ s' h.
                    let (p, found, succeeds, changed) =
                      accept_game_sequence-ok r.state s' k sequence h in
                    let playing : Playing r.state k session =
                      (active_session r.state k session u active, ground arith, ground arith) in
                    put_outcome _ _ (
                      some_outcome _ _ _ (λ missing. absurd (still_there r k sequence s' h missing))
                        λ q here. put_outcome _ _ (
                          last_spawn _ _
                            (λ differ. (
                              playing,
                              room,
                              (p, found, succeeds),
                              rw changed (rw (rw changed at differ) refl),
                            ))
                            λ agree. (
                              playing,
                              room,
                              (p, found, succeeds),
                              rw changed (rw (rw changed at agree) refl),
                            ))))

-- A keepalive counts only from a member of a running game under its session, with the number behind its
-- last and room in its queue. Then the number is noted, the report joins the queue, the reports of all
-- players are compared, and the game ends as out of sync exactly if they disagree. Every refusal
-- leaves the room unchanged and gives a reason that is true of it.
pub submit_keepalive_lem :
    (k session sequence checksum : ℕ) (r : Room)
    → KeepaliveOutcome k session sequence checksum r
        (submit_keepalive k session sequence checksum r).0
        (submit_keepalive k session sequence checksum r).1
submit_keepalive_lem k session sequence checksum r =
    (submit_keepalive-Ends k session sequence checksum r).holds
