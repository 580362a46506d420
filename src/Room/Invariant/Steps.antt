-- ===== src/Room/Invariant/Steps.antt =====
-- The submissions and the ticks of a running game keep the invariant.
use strajer.Common.{
  ℕ, ◌+◌, ◌<◌, ◌≡◌, refl, Bool, true, false, ◌||◌, List, [], ◌∷◌, ◌++◌, Option, none, some, leb,
  ltb, ok, All-append, length, arith, length-append,
}
use strajer.Common.Bytes.{Bytes}
use strajer.Game.{PlayerAction}
use strajer.Game.Groups.{IsAction, records_length-append}
use strajer.Room.{
  Room, LobbyRoomState, ConnectedPlayer, max_pending_checksums_per_player, max_pending_game_actions,
  max_pending_game_action_bytes,
}
use strajer.Room.Rules.{
  Leaves, pure_end, if_rule, get_rule, gets_rule, put_rule, put_end, spawn_end, reject_rule,
  from_rule, some_rule, bind_rule, when_rule,
}
use strajer.Room.Players.{get, get-modify}
use strajer.Room.State.{accept_game_sequence, with_sequence, saturating_add}
use strajer.Room.Play.{
  checksums_full, push_checksum, submit_action, reported, submit_keepalive, publish_pending_actions,
  publish_gameplay_tick,
}
use strajer.Room.Consensus.{consume_checksum_consensus}
use strajer.Room.Invariant.{IsPending, IsRoom}
use strajer.Room.Invariant.Lobby.{phase_of_tests}
use strajer.Room.Invariant.Play.{
  changed-IsRoom, few_checksums, accept_game_sequence-ok, publish_frames-IsRoom,
}
use strajer.Room.Invariant.Reports.{
  consume_checksum_consensus-Trimmed, Trimmed-IsTable, Trimmed-all, Trimmed-is_empty,
}

queued-IsPending :
    (active : Bool) (xs : List PlayerAction) (bytes : ℕ) (a : PlayerAction)
    → active ≡ true
    → (leb max_pending_game_actions (length xs)
        || ltb max_pending_game_action_bytes (saturating_add bytes (length a.bytes + 3)))
      ≡ false
    → IsAction a
    → IsPending active xs bytes
    → IsPending active (xs ++ (a ∷ [])) (bytes + (length a.bytes + 3))
queued-IsPending active xs bytes a running room valid v = record {
  counted = omega (arith, records_length-append xs (a ∷ []), v.counted);
  few = ground (arith, length-append xs (a ∷ []));
  small = ground arith;
  valid = All-append IsAction xs (a ∷ []) v.valid (valid, tt);
  idle = rw running refl;
}

sequenced-IsRoom :
    (r : Room) (s' : LobbyRoomState) (k sequence : ℕ)
    → IsRoom r
    → accept_game_sequence r.state k sequence ≡ ok s'
    → IsRoom (record r { state = s' })
sequenced-IsRoom r s' k sequence v e =
    let (p, found, _, after) = accept_game_sequence-ok r.state s' k sequence e in
    rw after (
      changed-IsRoom (with_sequence sequence) r k p (λ q. (refl, refl))
        (few_checksums r k p v found) (λ q. refl) (λ q. refl) found v)

pub submit_action-IsRoom :
    (player_id session_id sequence : ℕ) (action : PlayerAction) (r : Room)
    → IsAction action
    → IsRoom r
    → Leaves IsRoom (submit_action player_id session_id sequence action) r
unfolding submit_action
submit_action-IsRoom player_id session_id sequence action r valid v = get_rule _ (
    from_rule _ _ v λ _ _. reject_rule _ _ _ v λ running. reject_rule _ _ _ v λ _.
      reject_rule _ _ _ v λ room. from_rule _ _ v λ s' e.
        let w = sequenced-IsRoom r s' player_id sequence v e in
        let (_, _, _, after) = accept_game_sequence-ok r.state s' player_id sequence e in
        put_end _ (record {
          table = w.table;
          phase = ground (arith, w.phase);
          pending =
              queued-IsPending _ _ _ action (ground (arith, after)) (rw after room) valid w.pending;
        }))

checksums_room :
    (o : Option ConnectedPlayer) (p : ConnectedPlayer)
    → checksums_full o ≡ false
    → o ≡ some p
    → length p.checksums < max_pending_checksums_per_player
checksums_room none p room e = absurd (cc e)
checksums_room (some q) p room e = ground arith

pushed-IsRoom :
    (r : Room) (k checksum : ℕ) (p : ConnectedPlayer)
    → IsRoom r
    → get k r.state.players ≡ some p
    → length p.checksums < max_pending_checksums_per_player
    → IsRoom (record r { state = reported k checksum r.state })
pushed-IsRoom r k checksum p v found few =
    changed-IsRoom (push_checksum checksum) r k p (λ q. (refl, refl))
      (omega (arith, length-append p.checksums (checksum ∷ []))) (λ q. refl) (λ q. refl) found v

consumed-IsRoom :
    (r : Room)
    → IsRoom r
    → IsRoom (record r {
      state = record r.state { players = (consume_checksum_consensus r.state.players).1 };
    })
consumed-IsRoom r v =
    let t = consume_checksum_consensus-Trimmed r.state.players in
    record {
      table = Trimmed-IsTable _ _ _ _ t v.table;
      phase =
          phase_of_tests r.state _ v.phase (Trimmed-is_empty _ _ t)
            (Trimmed-all (λ p. p.ready) _ _ (λ p cs. refl) t)
            (Trimmed-all (λ p. p.loaded) _ _ (λ p cs. refl) t);
      pending = v.pending;
    }

-- The queue that had room keeps it when the sequence number is noted.
noted_room :
    (r : Room) (k sequence : ℕ) (q : ConnectedPlayer) (s' : LobbyRoomState)
    → checksums_full (get k r.state.players) ≡ false
    → accept_game_sequence r.state k sequence ≡ ok s'
    → get k s'.players ≡ some q
    → length q.checksums < max_pending_checksums_per_player
noted_room r k sequence q s' room e found =
    let (p, before, _, after) = accept_game_sequence-ok r.state s' k sequence e in
    let few = checksums_room _ p room before in
    ground (arith, get-modify k k (with_sequence sequence) r.state.players p before)

pub submit_keepalive-IsRoom :
    (player_id session_id sequence checksum : ℕ) (r : Room)
    → IsRoom r
    → Leaves IsRoom (submit_keepalive player_id session_id sequence checksum) r
unfolding submit_keepalive
submit_keepalive-IsRoom player_id session_id sequence checksum r v = get_rule _ (
    from_rule _ _ v λ _ _. reject_rule _ _ _ v λ running. reject_rule _ _ _ v λ room.
      from_rule _ _ v λ s' e.
        let w = sequenced-IsRoom r s' player_id sequence v e in
        put_rule _ _ (
          some_rule _ _ _ w λ q found.
            let few = noted_room r player_id sequence q s' room e found in
            let u = consumed-IsRoom _ (pushed-IsRoom _ player_id checksum q w found few) in
            put_rule _ _ (
              when_rule _ _
                (λ _.
                  spawn_end _ (record { table = u.table; phase = u.phase; pending = u.pending }))
                λ _. u)))

cleared-IsRoom :
    (r : Room)
    → IsRoom r
    → IsRoom
        (record r { state = record r.state { pending_actions = []; pending_action_bytes = 0 } })
cleared-IsRoom r v = record { table = v.table; phase = ground arith; pending = ground arith }

module _ (hash : Bytes → ℕ) where
  pub publish_pending_actions-IsRoom :
      (time : ℕ) (r : Room) → IsRoom r → Leaves IsRoom (publish_pending_actions hash time) r
  unfolding publish_pending_actions
  publish_pending_actions-IsRoom time r v = get_rule _ (
      put_rule _ _ (
        let w = cleared-IsRoom r v in from_rule _ _ w λ frames _. publish_frames-IsRoom frames _ w))

  pub publish_gameplay_tick-IsRoom :
      (generation : ℕ) (r : Room)
      → IsRoom r
      → Leaves IsRoom (publish_gameplay_tick hash generation) r
  unfolding publish_gameplay_tick
  publish_gameplay_tick-IsRoom generation r v = get_rule _ (
      gets_rule _ _ (
        if_rule _ _ _ (λ _. pure_end _ v)
          λ _.
            let published = publish_pending_actions-IsRoom _ r v in
            bind_rule _ _ published λ _ _. pure_end _ published.holds))
