-- ===== src/Room/Invariant/Lobby.antt =====
-- The handlers of the waiting room keep the invariant.
use strajer.Common.{
  ℕ, ◌+◌, ◌≤◌, ◌≡◌, ◌∙◌, refl, true, false, not, ◌&&◌, List, [], ◌∷◌, Option, none, some,
  checked_add-some, length, is_empty, arith,
}
use strajer.Common.Texts.{Text}
use strajer.Room.Rules.{
  Leaves, pure_end, if_rule, get_rule, gets_rule, put_rule, broadcast_rule, spawn_rule, spawn_end,
  reject_rule, from_rule, some_rule, bind_rule,
}
use strajer.Room.{Room, Task, LobbyRoomState, max_pending_checksums_per_player, ConnectedPlayer}
use strajer.Room.Players.{
  insert, modify, insert-Above, All-insert, modify-Above, All-modify, All-get, get,
}
use strajer.Room.Invariant.Tables.{
  Entry, IsEntry, SameIdentity, Differs-fresh, insert-Distinct, first_free_lem, contains_key-get,
  IsEntry-mono, is_empty-insert, is_empty-modify, all-modify_same, all-modify_up, modify-Distinct,
}
use strajer.Room.Invariant.{IsTable, IsPhase, IsRoom}
use strajer.Room.State.{
  all_ready, all_loaded, with_session, can_start_automatic_countdown, can_start_requested_countdown,
}
use strajer.Room.Actions.{◌>>=◌}
use strajer.Room.Lobby.{
  join, joined, first_free, name_taken, new_player, mark_ready, begin_countdown, spawn_countdown,
  set_ready, set_chat, publish_chat, request_manual_start,
}

joined-IsTable :
    (maximum next : ℕ) (name : Text) (m : List Entry) (k : ℕ)
    → IsTable maximum next m
    → name_taken name m ≡ false
    → first_free maximum 1 m ≡ some k
    → IsTable maximum (next + 1) (insert k (new_player next name) m)
joined-IsTable maximum next name m k v taken free =
    let (low, high, unused) = first_free_lem maximum 1 m k free in
    record {
      above = insert-Above 0 k _ m low v.above;
      entries =
          All-insert (IsEntry maximum (next + 1)) k _ m (omega arith)
            (IsEntry-mono maximum next (next + 1) m (omega arith) v.entries);
      distinct =
          insert-Distinct k _ m (contains_key-get k m unused)
            (Differs-fresh next name maximum m v.entries taken) v.distinct;
    }

joined-IsRoom :
    (r : Room) (name : Text) (k next : ℕ) (tasks : List Task)
    → IsRoom r
    → r.state.started ≡ false
    → r.state.countdown_active ≡ false
    → name_taken name r.state.players ≡ false
    → first_free r.maximum_players 1 r.state.players ≡ some k
    → next ≡ r.state.next_session_id + 1
    → IsRoom (record r { state = joined k next name r.state; tasks = tasks })
joined-IsRoom r name k next tasks v waiting quiet taken free e = record {
  table = rw e (joined-IsTable _ _ name _ k v.table taken free);
  phase =
      ground (arith, is_empty-insert k (new_player r.state.next_session_id name) r.state.players);
  pending = v.pending;
}

pub join-IsRoom : (name : Text) (r : Room) → IsRoom r → Leaves IsRoom (join name) r
unfolding join
join-IsRoom name r v = gets_rule _ _ (
    gets_rule _ _ (
      get_rule _ (
        reject_rule _ _ _ v λ waiting. reject_rule _ _ _ v λ quiet. reject_rule _ _ _ v λ room.
          reject_rule _ _ _ v λ taken. some_rule _ _ _ v λ k free. some_rule _ _ _ v λ next e.
            put_rule _ _ (
              spawn_rule _ _ (
                pure_end _ (
                  joined-IsRoom r name k next _ v waiting quiet taken free
                    (checked_add-some _ _ _ next e).0))))))

-- A change of one player that keeps what the table checks.
pub modify-IsTable :
    (maximum next k : ℕ) (f : ConnectedPlayer → ConnectedPlayer) (m : List Entry)
    (p : ConnectedPlayer)
    → SameIdentity f
    → get k m ≡ some p
    → length (f p).checksums ≤ max_pending_checksums_per_player
    → IsTable maximum next m
    → IsTable maximum next (modify k f m)
modify-IsTable maximum next k f m p same e short v =
    let (low, fresh, few) = All-get (IsEntry maximum next) k m p e v.entries in
    record {
      above = modify-Above 0 k f m v.above;
      entries =
          All-modify (IsEntry maximum next) k f m p e (low, rw ((same p).0) fresh, short) v.entries;
      distinct = modify-Distinct k f m same v.distinct;
    }

-- The phases look at a table through three tests.
pub phase_of_tests :
    (s : LobbyRoomState) (m : List Entry)
    → IsPhase s
    → is_empty m ≡ is_empty s.players
    → all_ready m ≡ all_ready s.players
    → all_loaded m ≡ all_loaded s.players
    → IsPhase (record s { players = m })
phase_of_tests s m v e1 e2 e3 = ground (arith, e1, e2, e3)

get-is_empty :
    (k : ℕ) (m : List Entry) (p : ConnectedPlayer) → get k m ≡ some p → is_empty m ≡ false
get-is_empty k [] p e = cc
get-is_empty k (q ∷ m) p e = refl

pub begin_countdown-IsRoom :
    (r : Room)
    → IsRoom r
    → r.state.started ≡ false
    → is_empty r.state.players ≡ false
    → all_ready r.state.players ≡ true
    → Leaves IsRoom begin_countdown r
unfolding begin_countdown
begin_countdown-IsRoom r v waiting some_players ready = get_rule _ (
    gets_rule _ _ (
      some_rule _ _ _ v λ generation e. put_rule _ _ (
        broadcast_rule _ _
          (pure_end _ (record { table = v.table; phase = ground arith; pending = v.pending })))))

spawn_countdown-IsRoom :
    (r : Room) (generation : ℕ) → IsRoom r → Leaves IsRoom (spawn_countdown generation) r
unfolding spawn_countdown
spawn_countdown-IsRoom r generation v =
    gets_rule _ _ (spawn_end _ (record { table = v.table; phase = v.phase; pending = v.pending }))

start-IsRoom :
    (r : Room)
    → IsRoom r
    → r.state.started ≡ false
    → is_empty r.state.players ≡ false
    → all_ready r.state.players ≡ true
    → Leaves IsRoom (begin_countdown >>= spawn_countdown) r
start-IsRoom r v waiting some_players ready =
    let begun = begin_countdown-IsRoom r v waiting some_players ready in
    bind_rule _ _ begun λ generation _. spawn_countdown-IsRoom _ generation begun.holds

readied-IsRoom :
    (r : Room) (k : ℕ) (p : ConnectedPlayer)
    → IsRoom r
    → get k r.state.players ≡ some p
    → IsRoom (record r { state = record r.state { players = modify k set_ready r.state.players } })
readied-IsRoom r k p v e = record {
  table =
      modify-IsTable _ _ k set_ready _ p (λ q. (refl, refl)) e
        (All-get (IsEntry _ _) k _ p e v.table.entries).2 v.table;
  phase = ground (
    arith,
    is_empty-modify k set_ready r.state.players,
    all-modify_up (λ q. q.ready) set_ready k r.state.players (λ q. refl),
    all-modify_same (λ q. q.loaded) set_ready k r.state.players (λ q. refl),
  );
  pending = v.pending;
}

can_start :
    (s : LobbyRoomState) (maximum : ℕ)
    → (not (can_start_automatic_countdown s maximum) && not (can_start_requested_countdown s))
      ≡ false
    → (s.started ≡ false) × (all_ready s.players ≡ true)
unfolding can_start_automatic_countdown can_start_requested_countdown
can_start s maximum e = ground arith

with_session-get :
    (session : ℕ) (o : Option ConnectedPlayer) (p : ConnectedPlayer)
    → with_session session o ≡ some p
    → o ≡ some p
with_session-get session none p e = absurd (cc e)
with_session-get session (some q) p e = ground arith

pub mark_ready-IsRoom :
    (player_id session_id : ℕ) (r : Room)
    → IsRoom r
    → Leaves IsRoom (mark_ready player_id session_id) r
unfolding mark_ready
mark_ready-IsRoom player_id session_id r v = get_rule _ (
    gets_rule _ _ (
      some_rule _ _ _ v λ p found.
        let here = with_session-get session_id _ p found in
        let w = readied-IsRoom r player_id p v here in
        if_rule _ _ _ (λ _. pure_end _ v)
          λ _. put_rule _ _ (
            if_rule _ _ _ (λ _. pure_end _ w)
              λ go.
                let (waiting, ready) = can_start _ _ go in
                start-IsRoom _ w waiting
                  (is_empty-modify player_id set_ready _ ∙ get-is_empty player_id _ p here) ready)))

pub publish_chat-IsRoom :
    (player_id session_id : ℕ) (message : Text) (now : ℕ) (r : Room)
    → IsRoom r
    → Leaves IsRoom (publish_chat player_id session_id message now) r
unfolding publish_chat
publish_chat-IsRoom player_id session_id message now r v = get_rule _ (
    some_rule _ _ _ v λ p found.
      let here = with_session-get session_id _ p found in
      let f = set_chat message now in
      let few = (All-get (IsEntry _ _) player_id _ p here v.table.entries).2 in
      if_rule _ _ _ (λ _. pure_end _ v)
        λ _. put_rule _ _ (
          spawn_rule _ _ (
            pure_end _ (record {
              table = modify-IsTable _ _ player_id f _ p (λ q. (refl, refl)) here few v.table;
              phase =
                  phase_of_tests r.state _ v.phase (is_empty-modify player_id f _)
                    (all-modify_same (λ q. q.ready) f player_id _ (λ q. refl))
                    (all-modify_same (λ q. q.loaded) f player_id _ (λ q. refl));
              pending = v.pending;
            }))))

pub request_manual_start-IsRoom :
    (player_id session_id : ℕ) (r : Room)
    → IsRoom r
    → Leaves IsRoom (request_manual_start player_id session_id) r
unfolding request_manual_start
request_manual_start-IsRoom player_id session_id r v = get_rule _ (
    from_rule _ _ v λ _ _.
      if_rule _ _ _ (λ _. pure_end _ v)
        λ waiting.
          if_rule _ _ _ (λ _. pure_end _ v)
            λ quiet.
              if_rule _ _ _ (λ _. pure_end _ v)
                λ two.
                  if_rule _ _ _
                    (λ _. put_rule _ _ (
                      pure_end _
                        (record { table = v.table; phase = ground arith; pending = v.pending })))
                    λ ready.
                      let begun =
                        begin_countdown-IsRoom r v waiting (ground arith) (ground arith) in
                      bind_rule _ _ begun λ generation _.
                        bind_rule _ _ (spawn_countdown-IsRoom _ generation begun.holds)
                          λ _ _. pure_end _ (spawn_countdown-IsRoom _ generation begun.holds).holds)
