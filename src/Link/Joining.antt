-- ===== src/Link/Joining.antt =====
-- The join of an agent: the answer of a room that admits the player is one that the agent accepts.
use strajer.Common.{
  ℕ, ◌-◌, ◌≤◌, ◌<◌, ◌≡◌, refl, sym, ap, false, List, some, ok, arith, All, list_eq_iff,
}
use mathlib.Core.Path.{subst}
use strajer.Common.Texts.{Text}
use strajer.Protocol.{validate_lobby_player_name, max_warcraft_players}
use strajer.Room.{Room, ConnectedPlayer}
use strajer.Room.Players.{get, get-insert, All-insert}
use strajer.Room.State.{next_revision}
use strajer.Room.Lobby.{LobbyMembership, join, new_player}
use strajer.Room.Rosters.{IsNamed, roster-validate, player-roster}
use strajer.Room.Invariant.{IsRoom}
use strajer.Room.Invariant.Lobby.{join-IsRoom}
use strajer.Room.Outcomes.Joins.{JoinOutcome, Admitted, join_lem}
use strajer.Session.Serving.{joined_message}
use strajer.Protocol.Roster.{validate, player}
use strajer.Remote
use strajer.Remote.{RemoteLobbySession, control}
use strajer.Remote.Incoming.{accept_joined}

next_revision-pos : (n : ℕ) → 0 < next_revision n
next_revision-pos n = ground arith

-- What `connect` keeps of an admission.
abbrev pub accepted : Room → LobbyMembership → ℕ → List Remote.Message → RemoteLobbySession
accepted r m now sent = record {
  assigned_player_id = m.player_id;
  initial_roster = m.roster;
  maximum_players = r.maximum_players;
  last_server_activity = now;
  ready_sent = false;
  loaded_sent = false;
  last_sent_game_sequence = 0;
  last_received_game_sequence = 0;
  sent = sent;
}

module _ (r : Room) (name : Text) (m : LobbyMembership) (valid : IsRoom r)
    (places : 0 < r.maximum_players) (most : r.maximum_players ≤ max_warcraft_players)
    (names : All IsNamed r.state.players) (named : validate_lobby_player_name name ≡ ok tt) where
  Admitted-accept_joined :
      (now : ℕ) (sent : List Remote.Message) (after : Room)
      → Admitted name r m after
      → IsRoom after
      → accept_joined r.maximum_players name now sent (control (joined_message m))
        ≡ ok (accepted r m now sent)
  unfolding accept_joined
  Admitted-accept_joined now sent after a v =
      let state = ap (λ s. s.state) a.room in
      let maximum : after.maximum_players ≡ r.maximum_players =
        ap (λ s. s.maximum_players) a.room in
      let p : ConnectedPlayer = new_player r.state.next_session_id name in
      let revision : 0 < after.state.revision = rw state (next_revision-pos r.state.revision) in
      let found : get m.player_id after.state.players ≡ some p =
        rw state (ground (arith, get-insert m.player_id m.player_id p r.state.players)) in
      let all : All IsNamed after.state.players =
        rw state (All-insert IsNamed m.player_id p r.state.players named names) in
      let checked : validate r.maximum_players m.roster ≡ ok tt =
        rw (a.roster, sym maximum)
          (roster-validate after v revision (omega arith) (omega arith) all) in
      let assigned : player m.roster m.player_id
          ≡ some (record { player_id = m.player_id; slot_index = m.player_id - 1; name = name }) =
        rw a.roster (player-roster after m.player_id p v found) in
      rw (checked, assigned, (list_eq_iff name name).1 refl) refl

  -- Where a room admits a player, the agent accepts the message `Joined` that the server makes of the
  -- membership, under the id, the roster and the number of places of the room. The room satisfies
  -- its invariant, has 1 to 24 places, and all names passed the check of the protocol.
  pub join_arrives :
      (now : ℕ) (sent : List Remote.Message)
      → (join name r).0 ≡ ok m
      → accept_joined r.maximum_players name now sent (control (joined_message m))
        ≡ ok (accepted r m now sent)
  join_arrives now sent e =
      let outcome : JoinOutcome name r (ok m) (join name r).1 =
        subst (λ x. JoinOutcome name r x (join name r).1) e (join_lem name r) in
      Admitted-accept_joined now sent (join name r).1 outcome (join-IsRoom name r valid).holds
