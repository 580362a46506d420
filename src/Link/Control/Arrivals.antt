-- ===== src/Link/Control/Arrivals.antt =====
-- The updates of a room of apps/strajer-server/src/lobby.rs at the agents of the players who are in it.
use strajer.Common.{
  Bool, ℕ, ◌≤◌, ◌<◌, ◌≡◌, ◌≢◌, refl, sym, ap, ◌∙◌, true, false, List, [], ◌∷◌, ◌++◌, Option, some,
  ok, Result, All, All-append, append_assoc, append-nil, ◌==◌, arith, inl, inr, Bool-cases,
}
use mathlib.Core.List.{append_cancel_left}
use strajer.Common.Bytes.{Bytes, u16_max}
use strajer.Common.Texts.{Text}
use strajer.Protocol.{LobbyLeaveReason, max_warcraft_players}
use strajer.Protocol.Roster
use strajer.Protocol.Messages.{ServerLobbyMessage}
use strajer.Room.{
  Room, LobbyUpdate, Task, ConnectedPlayer, GameplayPolicy, LobbyMembershipError, new_with_policies,
  default_countdown_policy, send, end_game, run_countdown, run_gameplay, last_player_game_over,
}
use strajer.Room.State
use strajer.Room.State.{roster_player}
use strajer.Room.Players.{get, remove, get-remove, remove-Above}
use strajer.Room.Rosters.{find_player_lem}
use strajer.Room.Play.{leave}
use strajer.Room.Tasks.{
  Call, call, joins, readies, loads, requests_start, acts, keeps_alive, chats, leaves, Step, calls,
  runs, Reach, next,
}
use strajer.Room.Invariant.{IsRoom}
use strajer.Room.Invariant.Reachable.{reachable-IsRoom}
use strajer.Room.Outcomes.Departures.{announced, Left, LeaveOutcome, leave_lem}
use strajer.Room.News.{IsNews, IsTold, HasNews}
use strajer.Room.News.Steps.{run_task-HasNews, call-HasNews}
use strajer.Room.News.Cancelled.{with_tasks-HasNews, begin-HasNews}
use strajer.Room.Published.{Fits, FitsTask, IsPublic}
use strajer.Room.Published.Steps.{All-remove_middle, Reach-Fits, reached-IsPublic}
use strajer.Session
use strajer.Session.{encode_server_message}
use strajer.Session.Loop.{on_update}
use strajer.Remote.{RemoteLobbySession}
use strajer.Remote.Sessions.{yields, on_received}
use strajer.Link.{carry}
use strajer.Link.Control.{Saying, saying, Remains, update_arrives}

-- The updates between two rooms, which the agent of the player `a` accepts.
record Heard (a : ℕ) (r s : Room) : Type 0 where
  news : List LobbyUpdate
  grown : s.updates ≡ r.updates ++ news
  heard : All (Remains a) news

news-Remains : (a : ℕ) (u : LobbyUpdate) → IsNews true u → Remains a u
news-Remains a (LobbyUpdate.roster r) h = tt
news-Remains a (LobbyUpdate.countdown n) h = tt
news-Remains a LobbyUpdate.countdown_cancelled h = tt
news-Remains a (LobbyUpdate.chat k message) h = tt
news-Remains a LobbyUpdate.start h = tt
news-Remains a (LobbyUpdate.player_loaded k) h = tt
news-Remains a (LobbyUpdate.player_left k reason left) h = absurd (cc h)
news-Remains a (LobbyUpdate.game_frame sequence f) h = tt
news-Remains a (LobbyUpdate.game_over reason) h = tt

heard_news : (a : ℕ) (us : List LobbyUpdate) → All (IsNews true) us → All (Remains a) us
heard_news a [] h = tt
heard_news a (u ∷ us) h = (news-Remains a u h.0, heard_news a us h.1)

news-Heard : (a : ℕ) (r s : Room) → HasNews true 0 r.updates s → Heard a r s
news-Heard a r s v = record { news = v.news; grown = v.grown; heard = heard_news a v.news v.told }

anything : (r : Room) → HasNews true 0 r.updates r
anything r = begin-HasNews true 0 r (record { next = omega arith; now = λ _. omega arith })

-- Whoever remains is not the one who leaves, and is in the roster that is left.
announced-Remains :
    (a k : ℕ) (reason : LobbyLeaveReason) (r : Room) (p : ConnectedPlayer)
    → IsRoom r
    → get a (remove k r.state.players) ≡ some p
    → All (Remains a) (announced k reason r.state)
unfolding State.roster Roster.player
announced-Remains a k reason r p v here =
    let other : (k == a) ≡ false = ground (arith, get-remove 0 k a r.state.players v.table.above) in
    let found =
      find_player_lem 0 a (remove k r.state.players) p
        (remove-Above 0 k r.state.players v.table.above) here in
    elim (Bool-cases r.state.started) [
      | inl started ↦ rw started (((λ e. absurd (ground arith)), _, found), tt)
      | inr waits ↦ elim (Bool-cases r.state.countdown_active) [
        | inl counts ↦ rw (waits, counts) (tt, (tt, tt))
        | inr idle ↦ rw (waits, idle) (tt, tt)
      ]
    ]

departure-Heard :
    (a k : ℕ) (reason : LobbyLeaveReason) (r s : Room) (p : ConnectedPlayer)
    → IsRoom r
    → get a s.state.players ≡ some p
    → Left k reason r s
    → Heard a r s
departure-Heard a k reason r s p v here left = record {
  news = left.news ++ announced k reason r.state;
  grown = left.grown;
  heard =
      All-append (Remains a) left.news (announced k reason r.state)
        (heard_news a left.news left.told)
        (announced-Remains a k reason r p v (rw left.removed at here));
}

outcome-Heard :
    (a k session : ℕ) (reason : LobbyLeaveReason) (r s : Room) (p : ConnectedPlayer)
    (x : Result LobbyMembershipError (Unit {0}))
    → IsRoom r
    → get a s.state.players ≡ some p
    → LeaveOutcome k session reason r x s
    → Heard a r s
outcome-Heard a k session reason r s p x v here (inl same) = record {
  news = [];
  grown = ap (λ t. t.updates) same.2 ∙ sym (append-nil r.updates);
  heard = tt;
}
outcome-Heard a k session reason r s p x v here (inr (matches, inl left)) =
    departure-Heard a k reason r s p v here left
outcome-Heard a k session reason r s p x v here (inr (matches, inr stuck)) = record {
  news = stuck.news;
  grown = stuck.grown;
  heard = heard_news a stuck.news stuck.told;
}

module _ (hash : Bytes → ℕ) (a : ℕ) where
  staying-Heard :
      (c : Call) (r : Room)
      → ((k n : ℕ) (reason : LobbyLeaveReason) → c ≢ leaves k n reason)
      → Heard a r (call hash c r)
  staying-Heard c r h = news-Heard a r _ (
      call-HasNews true 0 hash r.updates c r (λ k n reason e. absurd (h k n reason e)) (anything r))

  call-Heard :
      (c : Call) (r : Room) (p : ConnectedPlayer)
      → IsRoom r
      → get a (call hash c r).state.players ≡ some p
      → Heard a r (call hash c r)
  unfolding call
  call-Heard (joins name) r p v here = staying-Heard (joins name) r (λ k n reason e. cc e)
  call-Heard (readies k n) r p v here = staying-Heard (readies k n) r (λ k n reason e. cc e)
  call-Heard (loads k n) r p v here = staying-Heard (loads k n) r (λ k n reason e. cc e)
  call-Heard (requests_start k n) r p v here =
      staying-Heard (requests_start k n) r (λ k n reason e. cc e)
  call-Heard (acts k n sequence action) r p v here =
      staying-Heard (acts k n sequence action) r (λ k n reason e. cc e)
  call-Heard (keeps_alive k n sequence checksum) r p v here =
      staying-Heard (keeps_alive k n sequence checksum) r (λ k n reason e. cc e)
  call-Heard (chats k n message now) r p v here =
      staying-Heard (chats k n message now) r (λ k n reason e. cc e)
  call-Heard (leaves k n reason) r p v here =
      outcome-Heard a k n reason r (leave hash k n reason r).1 p (leave hash k n reason r).0 v here
        (leave_lem hash k n reason r v)

  task-IsTold : (maximum : ℕ) (t : Task) → FitsTask maximum t → IsTold true t
  task-IsTold maximum (send u) h = h.1
  task-IsTold maximum (end_game reason) h = tt
  task-IsTold maximum (run_countdown generation remaining) h = tt
  task-IsTold maximum (run_gameplay generation) h = tt
  task-IsTold maximum (last_player_game_over generation) h = tt

  Step-Heard :
      (maximum : ℕ) (r s : Room) (p : ConnectedPlayer)
      → Step hash r s
      → IsRoom r
      → IsPublic maximum r
      → get a s.state.players ≡ some p
      → Heard a r s
  Step-Heard maximum r _ p (calls c h) v w here = call-Heard c r p v here
  Step-Heard maximum r _ p (runs front back t e) v w here =
      let (fits, _) = All-remove_middle (FitsTask maximum) front back t (rw e at w.tasks) in
      news-Heard a r _ (
        run_task-HasNews true 0 hash r.updates t (record r { tasks = front ++ back })
          (task-IsTold maximum t fits) (with_tasks-HasNews r _ refl refl (anything r)))

module _ (print : ServerLobbyMessage → Option Text) (parse : Text → Option ServerLobbyMessage)
    (codec : (m : ServerLobbyMessage) (t : Text) → print m ≡ some t → parse t ≡ some m) where
  -- From any room to the agent of any player in it: an update that a call or a task of the room broadcasts,
  -- other than a frame of the game, is sent as its message, and the agent takes it as its event. The
  -- room comes from a catalog's lobby by permitted calls and tasks in any order, with a tick of 16 bits;
  -- the agent's player is in the room afterwards, so that a departure is of somebody else, and the agent
  -- counts the same places; the JSON codec reads back what it wrote, and the message is within the
  -- limit of the server.
  pub control_arrives :
      (hash : Bytes → ℕ) (revision maximum : ℕ) (g : GameplayPolicy) (r t : Room)
      (front back : List LobbyUpdate) (u : LobbyUpdate) (x : Saying) (s : RemoteLobbySession)
      (p : ConnectedPlayer) (now : ℕ) (sends : Bool) (message : Session.Message)
      → 0 < revision
      → 0 < maximum
      → maximum ≤ max_warcraft_players
      → g.tick_increment_ms ≤ u16_max
      → Reach hash (new_with_policies revision maximum default_countdown_policy g) r
      → Step hash r t
      → t.updates ≡ r.updates ++ (front ++ (u ∷ back))
      → get s.assigned_player_id t.state.players ≡ some p
      → saying u ≡ some x
      → s.maximum_players ≡ maximum
      → encode_server_message print x.message ≡ ok message
      → ((on_update print u).messages ≡ message ∷ [])
        × (on_received hash parse sends (some (some (carry message))) now s
            ≡ ok (yields (some x.event), record s { last_server_activity = now }))
  control_arrives hash revision maximum g r t front back u x s p now sends message revised positive
        most short reach step at here says places e =
      let v = reachable-IsRoom hash revision maximum default_countdown_policy g r reach in
      let w = reached-IsPublic hash revision maximum g r revised positive most short reach in
      let all =
        Reach-Fits hash revision maximum g t revised positive most short (next reach step) in
      let fits : Fits maximum u =
        (All-remove_middle (Fits maximum) (r.updates ++ front) back u
          (rw (at ∙ sym (append_assoc r.updates front (u ∷ back))) at all)).0 in
      let heard = Step-Heard hash s.assigned_player_id maximum r t p step v w here in
      let same : heard.news ≡ front ++ (u ∷ back) =
        append_cancel_left r.updates _ _ (sym heard.grown ∙ at) in
      let remains : Remains s.assigned_player_id u =
        (All-remove_middle (Remains s.assigned_player_id) front back u
          (rw same at heard.heard)).0 in
      update_arrives print parse codec hash maximum u x s now sends message says places fits remains
        e
