-- ===== src/Room/Invariant/Play.antt =====
-- The handlers of a running game keep the invariant.
use strajer.Common.{ℕ, ◌+◌, ◌≤◌, ◌≡◌, refl, List, [], ◌∷◌, Option, none, some, ok, length, arith}
use strajer.Frame.{Frame}
use strajer.Protocol.{GameEndReason}
use strajer.Room.{Room, LobbyRoomState, ConnectedPlayer, max_pending_checksums_per_player}
use strajer.Room.Rules.{
  Leaves, pure_end, if_rule, get_rule, put_rule, put_end, broadcast_rule, broadcast_end, spawn_end,
  reject_rule, from_rule, some_rule, bind_rule,
}
use strajer.Room.Players.{get, modify, All-get}
use strajer.Room.State.{accept_game_sequence, with_sequence, reset_game}
use strajer.Room.Play.{
  begin_gameplay_if_ready, spawn_gameplay, set_loaded, mark_loaded, finish_game, publish_frames,
}
use strajer.Room.Invariant.{IsRoom}
use strajer.Room.Invariant.Tables.{
  IsEntry, SameIdentity, is_empty-modify, all-modify_same, all-modify_up,
}
use strajer.Room.Invariant.Lobby.{modify-IsTable, phase_of_tests}

pub begin_gameplay_if_ready-IsRoom : (r : Room) → IsRoom r → Leaves IsRoom begin_gameplay_if_ready r
unfolding begin_gameplay_if_ready
begin_gameplay_if_ready-IsRoom r v = get_rule _ (
    if_rule _ _ _ (λ _. pure_end _ v)
      λ go. some_rule _ _ _ v λ generation e.
        put_rule _ _
          (pure_end _ (record { table = v.table; phase = ground arith; pending = ground arith })))

pub spawn_gameplay-IsRoom :
    (o : Option ℕ) (r : Room) → IsRoom r → Leaves IsRoom (spawn_gameplay o) r
spawn_gameplay-IsRoom none r v = pure_end _ v
spawn_gameplay-IsRoom (some generation) r v =
    spawn_end _ (record { table = v.table; phase = v.phase; pending = v.pending })

-- A change of one player that keeps its identity and readiness and shortens or keeps its queue.
pub changed-IsRoom :
    (f : ConnectedPlayer → ConnectedPlayer) (r : Room) (k : ℕ) (p : ConnectedPlayer)
    → SameIdentity f
    → length (f p).checksums ≤ max_pending_checksums_per_player
    → ((q : ConnectedPlayer) → (f q).ready ≡ q.ready)
    → ((q : ConnectedPlayer) → (f q).loaded ≡ q.loaded)
    → get k r.state.players ≡ some p
    → IsRoom r
    → IsRoom (record r { state = record r.state { players = modify k f r.state.players } })
changed-IsRoom f r k p same few same_ready same_loaded e v = record {
  table = modify-IsTable _ _ k f _ p same e few v.table;
  phase =
      phase_of_tests r.state _ v.phase (is_empty-modify k f _)
        (all-modify_same (λ q. q.ready) f k _ same_ready)
        (all-modify_same (λ q. q.loaded) f k _ same_loaded);
  pending = v.pending;
}

pub few_checksums :
    (r : Room) (k : ℕ) (p : ConnectedPlayer)
    → IsRoom r
    → get k r.state.players ≡ some p
    → length p.checksums ≤ max_pending_checksums_per_player
few_checksums r k p v e = (All-get (IsEntry _ _) k _ p e v.table.entries).2

loaded-IsRoom :
    (r : Room) (k : ℕ) (p : ConnectedPlayer)
    → IsRoom r
    → get k r.state.players ≡ some p
    → IsRoom (record r { state = record r.state { players = modify k set_loaded r.state.players } })
loaded-IsRoom r k p v e = record {
  table =
      modify-IsTable _ _ k set_loaded _ p (λ q. (refl, refl)) e (few_checksums r k p v e) v.table;
  phase = ground (
    arith,
    is_empty-modify k set_loaded r.state.players,
    all-modify_same (λ q. q.ready) set_loaded k r.state.players (λ q. refl),
    all-modify_up (λ q. q.loaded) set_loaded k r.state.players (λ q. refl),
  );
  pending = v.pending;
}

pub mark_loaded-IsRoom :
    (player_id session_id : ℕ) (r : Room)
    → IsRoom r
    → Leaves IsRoom (mark_loaded player_id session_id) r
unfolding mark_loaded
mark_loaded-IsRoom player_id session_id r v = get_rule _ (
    from_rule _ _ v λ _ _. reject_rule _ _ _ v λ running. some_rule _ _ _ v λ p found.
      if_rule _ _ _ (λ _. pure_end _ v)
        λ _.
          let w = loaded-IsRoom r player_id p v found in
          put_rule _ _ (
            broadcast_rule _ _ (
              let begun =
                begin_gameplay_if_ready-IsRoom _
                  (record { table = w.table; phase = w.phase; pending = w.pending }) in
              bind_rule _ _ begun λ generation _. spawn_gameplay-IsRoom generation _ begun.holds)))

pub accept_game_sequence-ok :
    (s s' : LobbyRoomState) (k sequence : ℕ)
    → accept_game_sequence s k sequence ≡ ok s'
    → (p : ConnectedPlayer) × (get k s.players ≡ some p)
      × (sequence ≡ p.last_game_sequence + 1)
      × (s' ≡ record s { players = modify k (with_sequence sequence) s.players })
unfolding accept_game_sequence
accept_game_sequence-ok s s' k sequence e = ground arith

-- `finish_game` closes the game for good, or empties an empty room's.
pub finish_game-IsRoom :
    (reason : GameEndReason) (r : Room) → IsRoom r → Leaves IsRoom (finish_game reason) r
unfolding finish_game reset_game
finish_game-IsRoom reason r v = get_rule _ (
    if_rule _ _ _ (λ _. pure_end _ v)
      λ running.
        if_rule _ _ _
          (λ nobody.
            put_end _ (record { table = v.table; phase = ground arith; pending = ground arith }))
          λ somebody. put_rule _ _ (
            broadcast_end _
              (record { table = v.table; phase = ground arith; pending = ground arith })))

pub publish_frames-IsRoom :
    (fs : List Frame) (r : Room) → IsRoom r → Leaves IsRoom (publish_frames fs) r
unfolding publish_frames
publish_frames-IsRoom [] r v = record { holds = v }
publish_frames-IsRoom (f ∷ fs) r v = record {
  holds =
      (get_rule _ (
        some_rule _ _ _ v λ sequence e. put_rule _ _ (
          broadcast_rule _ _ (
            publish_frames-IsRoom fs _
              (record { table = v.table; phase = ground arith; pending = v.pending }))))).holds;
}
