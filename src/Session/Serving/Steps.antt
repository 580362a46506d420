-- ===== src/Session/Serving/Steps.antt =====
-- What one event of a session does to the room, and what the end of a session leaves behind.
use strajer.Common.{ℕ, ◌≤◌, ◌≡◌, sym, Option, none, some, Result, ok, err, arith, get_elem?}
use strajer.Common.Bytes.{Bytes, u8_max}
use strajer.Common.Texts.{Text}
use strajer.Protocol.{disconnect}
use strajer.Protocol.Messages.{
  AgentLobbyMessage, ServerLobbyMessage, LobbyJoinRejection, join_player_name,
}
use strajer.Room.{Room, LobbyJoinError, LobbyUpdate}
use strajer.Room.Lobby.{LobbyMembership}
use strajer.Room.Tasks.{call, joins, leaves, calls, Reach, next}
use strajer.Room.Invariant.{IsRoom}
use strajer.Room.Invariant.Reachable.{Reach-IsRoom}
use strajer.Room.Settings.Steps.{Reach-SameSettings}
use strajer.Room.Outcomes.Joins.{JoinOutcome, join_lem}
use strajer.Room.Outcomes.Cleanups.{CleanedUp, leave-CleanedUp}
use strajer.Session.{SessionError, unreadable, Message, receive_join_message}
use strajer.Session.Calls.{IsMessage, Driven, untouched, called, IsOwn-IsCall, on_message-Driven}
use strajer.Session.Joins.{IsReceived, receive_join_message-IsReceived}
use strajer.Session.Loop.{Flow, goes_on, finishes, on_message}
use strajer.Session.Serving.{
  Member, Phase, opening, closed, connected, World, Event, opens, receives, ends, breaks, ticks,
  delivers, lags, clean_up, delivered, settle_sending, opened, in_phase, settle, enter,
  open_session, on_event, advance,
}

-- The messages that arrive are made of bytes.
abbrev pub IsEvent : Event → Type 0
IsEvent (opens m now) = Unit {0}
IsEvent (receives m now) = IsMessage m
IsEvent ends = Unit {0}
IsEvent breaks = Unit {0}
IsEvent (ticks now) = Unit {0}
IsEvent delivers = Unit {0}
IsEvent (lags skipped) = Unit {0}

-- The player of a connected session has one of this many ids.
abbrev pub InPlaces : ℕ → Phase → Type 0
InPlaces maximum opening = Unit {0}
InPlaces maximum closed = Unit {0}
InPlaces maximum (connected c) = c.player_id ≤ maximum

-- What becomes of a room that satisfies the invariant.
module _ (hash : Bytes → ℕ) (start : Room) (valid : IsRoom start) where
  -- The room is reached from the first one by calls and tasks, and the session's player is in its places.
  pub record IsWorld (w : World) : Type 0 where
    pub reach : Reach hash start w.room
    pub member : InPlaces start.maximum_players w.phase

  pub reached-IsRoom : (r : Room) → Reach hash start r → IsRoom r
  reached-IsRoom r reach = Reach-IsRoom hash start r reach valid

  Driven-Reach :
      (k n : ℕ) (r s : Room) → Driven hash k n r s → Reach hash start r → Reach hash start s
  Driven-Reach k n r s (untouched e) reach = rw e reach
  Driven-Reach k n r s (called c own e) reach = rw e (next reach (calls c (IsOwn-IsCall k n c own)))

  clean_up-Reach :
      (c : Member) (w : World) → Reach hash start w.room → Reach hash start (clean_up hash c w).room
  unfolding clean_up call
  clean_up-Reach c w reach = next reach (calls (leaves c.player_id c.session_id disconnect) tt)

  settle-IsWorld :
      (c : Member) (x : Result SessionError Flow) (w : World)
      → Reach hash start w.room
      → c.player_id ≤ start.maximum_players
      → IsWorld (settle hash c x w)
  unfolding settle
  settle-IsWorld c (ok goes_on) w reach h = record { reach = reach; member = h }
  settle-IsWorld c (ok finishes) w reach h = record {
    reach = clean_up-Reach c w reach;
    member = tt;
  }
  settle-IsWorld c (err e) w reach h = record { reach = clean_up-Reach c w reach; member = tt }

  settle-closed :
      (c : Member) (x : Result SessionError Flow) (w : World)
      → Reach hash start w.room
      → (settle hash c x w).phase ≡ closed
      → CleanedUp c.player_id c.session_id (settle hash c x w).room
  unfolding settle
  settle-closed c (ok goes_on) w reach e = absurd (cc e)
  settle-closed c (ok finishes) w reach e =
      leave-CleanedUp hash c.player_id c.session_id disconnect w.room (reached-IsRoom w.room reach)
  settle-closed c (err x) w reach e =
      leave-CleanedUp hash c.player_id c.session_id disconnect w.room (reached-IsRoom w.room reach)

module _ (hash : Bytes → ℕ) (parse : Text → Option AgentLobbyMessage)
    (print : ServerLobbyMessage → Option Text) (start : Room) (valid : IsRoom start)
    (small : start.maximum_players ≤ u8_max) where
  -- The room behind a message of the socket.
  message-Reach :
      (m : Message) (now : ℕ) (c : Member) (r : Room)
      → IsMessage m
      → Reach hash start r
      → c.player_id ≤ start.maximum_players
      → Reach hash start (on_message hash parse print c.player_id c.session_id now m r).1
  message-Reach m now c r h reach id =
      Driven-Reach hash start valid c.player_id c.session_id r _
        (on_message-Driven hash parse print c.player_id c.session_id now m r (omega arith) h) reach

  advance-id :
      (c : Member) (o : Option LobbyUpdate)
      → c.player_id ≤ start.maximum_players
      → (advance c o).player_id ≤ start.maximum_players
  advance-id c none h = h
  advance-id c (some u) h = h

  on_event-IsWorld :
      (e : Event) (c : Member) (w : World)
      → IsEvent e
      → IsWorld hash start valid w
      → w.phase ≡ connected c
      → c.player_id ≤ start.maximum_players
      → IsWorld hash start valid (on_event hash parse print e c w)
  unfolding on_event
  on_event-IsWorld (opens m now) c w h v at id = v
  on_event-IsWorld (receives m now) c w h v at id =
      let reach = message-Reach m now c w.room h v.reach id in
      settle-IsWorld hash start valid _ _ _ reach id
  on_event-IsWorld ends c w h v at id = settle-IsWorld hash start valid c (ok finishes) w v.reach id
  on_event-IsWorld breaks c w h v at id =
      settle-IsWorld hash start valid c (err unreadable) w v.reach id
  on_event-IsWorld (ticks now) c w h v at id = settle-IsWorld hash start valid _ _ _ v.reach id
  on_event-IsWorld delivers c w h v at id =
      settle-IsWorld hash start valid _ _ _ v.reach
        (advance-id c (get_elem? w.room.updates c.cursor) id)
  on_event-IsWorld (lags skipped) c w h v at id = settle-IsWorld hash start valid _ _ _ v.reach id

  enter-IsWorld :
      (name : Text) (now : ℕ) (w : World) (x : Result LobbyJoinError LobbyMembership) (r : Room)
      → JoinOutcome name w.room x r
      → Reach hash start w.room
      → Reach hash start r
      → IsWorld hash start valid (enter hash parse print now x (record w { room = r }))
  unfolding enter
  enter-IsWorld name now w (err e) r outcome before reach = record { reach = reach; member = tt }
  enter-IsWorld name now w (ok membership) r admitted before reach =
      settle-IsWorld hash start valid _ _ _ reach
        (omega (arith, admitted.in_range, (Reach-SameSettings hash start w.room before).0))

  open_session-IsWorld :
      (now : ℕ) (x : Result LobbyJoinRejection AgentLobbyMessage) (w : World)
      → IsReceived x
      → IsWorld hash start valid w
      → IsWorld hash start valid (open_session hash parse print now x w)
  unfolding open_session join_player_name call
  open_session-IsWorld now (err code) w h v = record { reach = v.reach; member = tt }
  open_session-IsWorld now (ok (AgentLobbyMessage.join version name)) w h v =
      enter-IsWorld name now w _ _ (join_lem name w.room) v.reach
        (next v.reach (calls (joins name) h))
  open_session-IsWorld now (ok (AgentLobbyMessage.ready version)) w h v = record {
    reach = v.reach;
    member = tt;
  }
  open_session-IsWorld now (ok (AgentLobbyMessage.loaded version)) w h v = record {
    reach = v.reach;
    member = tt;
  }
  open_session-IsWorld now (ok (AgentLobbyMessage.chat version message)) w h v = record {
    reach = v.reach;
    member = tt;
  }
  open_session-IsWorld now (ok (AgentLobbyMessage.leave version reason)) w h v = record {
    reach = v.reach;
    member = tt;
  }

  opened-IsWorld :
      (e : Event) (w : World)
      → IsWorld hash start valid w
      → IsWorld hash start valid (opened hash parse print e w)
  opened-IsWorld (opens m now) w v =
      open_session-IsWorld now (receive_join_message parse m) w
        (receive_join_message-IsReceived parse m) v
  opened-IsWorld (receives m now) w v = v
  opened-IsWorld ends w v = v
  opened-IsWorld breaks w v = v
  opened-IsWorld (ticks now) w v = v
  opened-IsWorld delivers w v = v
  opened-IsWorld (lags skipped) w v = v

  pub in_phase-IsWorld :
      (p : Phase) (e : Event) (w : World)
      → w.phase ≡ p
      → IsEvent e
      → IsWorld hash start valid w
      → IsWorld hash start valid (in_phase hash parse print p e w)
  in_phase-IsWorld opening e w at h v = opened-IsWorld e w v
  in_phase-IsWorld closed e w at h v = v
  in_phase-IsWorld (connected c) e w at h v =
      let id : InPlaces start.maximum_players (connected c) = rw at at v.member in
      on_event-IsWorld e c w h v at id

  delivered-closed :
      (c : Member) (o : Option LobbyUpdate) (w : World)
      → Reach hash start w.room
      → (settle_sending hash (advance c o) (delivered print o) w).phase ≡ closed
      → CleanedUp c.player_id c.session_id
          (settle_sending hash (advance c o) (delivered print o) w).room
  delivered-closed c none w v e = settle-closed hash start valid c _ _ v e
  delivered-closed c (some u) w v e = settle-closed hash start valid (advance c (some u)) _ _ v e

  on_event-closed :
      (e : Event) (c : Member) (w : World)
      → IsEvent e
      → IsWorld hash start valid w
      → w.phase ≡ connected c
      → c.player_id ≤ start.maximum_players
      → (on_event hash parse print e c w).phase ≡ closed
      → CleanedUp c.player_id c.session_id (on_event hash parse print e c w).room
  unfolding on_event
  on_event-closed (opens m now) c w h v at id e = absurd (cc (at, e))
  on_event-closed (receives m now) c w h v at id e =
      let reach = message-Reach m now c w.room h v.reach id in
      settle-closed hash start valid _ _ _ reach e
  on_event-closed ends c w h v at id e = settle-closed hash start valid c (ok finishes) w v.reach e
  on_event-closed breaks c w h v at id e =
      settle-closed hash start valid c (err unreadable) w v.reach e
  on_event-closed (ticks now) c w h v at id e = settle-closed hash start valid c _ _ v.reach e
  on_event-closed delivers c w h v at id e =
      delivered-closed c (get_elem? w.room.updates c.cursor) w v.reach e
  on_event-closed (lags skipped) c w h v at id e = settle-closed hash start valid _ _ _ v.reach e

  pub in_phase-closed :
      (p : Phase) (e : Event) (c : Member) (w : World)
      → w.phase ≡ p
      → p ≡ connected c
      → IsEvent e
      → IsWorld hash start valid w
      → (in_phase hash parse print p e w).phase ≡ closed
      → CleanedUp c.player_id c.session_id (in_phase hash parse print p e w).room
  in_phase-closed opening e c w at q h v d = absurd (cc q)
  in_phase-closed closed e c w at q h v d = absurd (cc q)
  in_phase-closed (connected b) e c w at q h v d =
      let same : b ≡ c = cc in
      let id : InPlaces start.maximum_players (connected b) = rw at at v.member in
      rw (sym same) (on_event-closed e b w h v at id d)
