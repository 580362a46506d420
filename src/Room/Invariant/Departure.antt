-- ===== src/Room/Invariant/Departure.antt =====
-- `leave` keeps the invariant, which its removal of the player breaks and its last part restores.
use strajer.Common.{ℕ, ◌≡◌, Bool, false, ok, is_empty, arith}
use strajer.Common.Bytes.{Bytes}
use strajer.Protocol.{LobbyLeaveReason}
use strajer.Room.{Room}
use strajer.Room.Rules.{
  Leaves, pure_end, if_rule, get_rule, put_rule, put_end, broadcast_rule, broadcast_end, spawn_end,
  bind_rule, when_rule, then_rule,
}
use strajer.Room.Players.{remove, All-remove, remove-Above}
use strajer.Room.State.{reset_game}
use strajer.Room.Play.{publish_pending_actions, departed, remove_player, after_departure, leave}
use strajer.Room.Actions.{◌>>=◌, ◌>>◌, when}
use strajer.Room.Invariant.Steps.{publish_pending_actions-IsRoom}
use strajer.Room.Invariant.{IsTable, IsPhase, IsPending, IsRoom}
use strajer.Room.Invariant.Tables.{IsEntry, remove-Distinct, all-remove}
use strajer.Room.Invariant.Play.{begin_gameplay_if_ready-IsRoom, spawn_gameplay-IsRoom}

-- Between `remove_player` and `after_departure` a room may be started and empty.
record IsLeft (r : Room) : Type 0 where
  table : IsTable r.maximum_players r.state.next_session_id r.state.players
  phase : is_empty r.state.players ≡ false → IsPhase r.state
  pending : IsPending r.state.gameplay_active r.state.pending_actions r.state.pending_action_bytes

remove_player-IsLeft :
    (player_id : ℕ) (reason : LobbyLeaveReason) (r : Room)
    → IsRoom r
    → Leaves IsLeft (remove_player player_id reason) r
unfolding remove_player
remove_player-IsLeft player_id reason r v =
    let table : IsTable r.maximum_players r.state.next_session_id
        (remove player_id r.state.players) =
      record {
        above = remove-Above 0 player_id _ v.table.above;
        entries = All-remove (IsEntry _ _) player_id _ v.table.entries;
        distinct = remove-Distinct player_id _ v.table.distinct;
      } in
    let phase : is_empty (remove player_id r.state.players) ≡ false
        → IsPhase (departed player_id r.state) =
      λ somebody. ground (
        arith,
        all-remove (λ p. p.ready) player_id r.state.players,
        all-remove (λ p. p.loaded) player_id r.state.players,
      ) in
    get_rule _ (
      put_rule _ _ (
        if_rule _ _ _
          (λ _. broadcast_end _ (record { table = table; phase = phase; pending = v.pending }))
          λ _. broadcast_rule _ _ (
            when_rule _ _
              (λ _. broadcast_end _ (record { table = table; phase = phase; pending = v.pending }))
              λ _. record { table = table; phase = phase; pending = v.pending })))

remove_player_ok :
    (player_id : ℕ) (reason : LobbyLeaveReason) (r : Room)
    → (remove_player player_id reason r).0 ≡ ok tt
unfolding remove_player ◌>>=◌
remove_player_ok player_id reason r = ground arith

after_departure-IsRoom :
    (started : Bool) (r : Room) → IsLeft r → Leaves IsRoom (after_departure started) r
unfolding after_departure reset_game
after_departure-IsRoom started r v = get_rule _ (
    if_rule _ _ _
      (λ nobody.
        put_end _ (record { table = v.table; phase = ground arith; pending = ground arith }))
      λ somebody.
        let w : IsRoom r = record {
          table = v.table;
          phase = v.phase somebody;
          pending = v.pending;
        } in
        if_rule _ _ _
          (λ _.
            spawn_end _ (record { table = v.table; phase = v.phase somebody; pending = v.pending }))
          λ _.
            let begun = begin_gameplay_if_ready-IsRoom r w in
            bind_rule _ _ begun λ generation _. spawn_gameplay-IsRoom generation _ begun.holds)

departure-IsRoom :
    (player_id : ℕ) (reason : LobbyLeaveReason) (started : Bool) (r : Room)
    → IsRoom r
    → Leaves IsRoom (remove_player player_id reason >> after_departure started) r
departure-IsRoom player_id reason started r v =
    then_rule _ _ tt (remove_player_ok player_id reason r)
      (after_departure-IsRoom started _ (remove_player-IsLeft player_id reason r v).holds)

pub leave-IsRoom :
    (hash : Bytes → ℕ) (player_id session_id : ℕ) (reason : LobbyLeaveReason) (r : Room)
    → IsRoom r
    → Leaves IsRoom (leave hash player_id session_id reason) r
unfolding leave
leave-IsRoom hash player_id session_id reason r v =
    let published : (b : Bool) → Leaves IsRoom (when b (publish_pending_actions hash 0)) r =
      λ b. when_rule _ _ (λ _. publish_pending_actions-IsRoom hash 0 r v) λ _. v in
    get_rule _ (
      if_rule _ _ _ (λ _. pure_end _ v)
        λ _.
          bind_rule _ _ (published _)
            λ _ _. departure-IsRoom player_id reason r.state.started _ (published _).holds)
