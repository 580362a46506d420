-- ===== src/Room/Rosters.antt =====
-- The rosters that a room publishes are rosters that the protocol accepts.
use strajer.Common.{
  ℕ, ◌+◌, ◌-◌, ◌≤◌, ◌<◌, ◌≡◌, refl, false, List, [], ◌∷◌, some, ok, arith, All, length,
}
use strajer.Protocol.{validate_lobby_player_name, max_warcraft_players}
use strajer.Protocol.Roster.{
  validate, validate_players, validate_player, contains, player, find_player,
}
use strajer.Room.{Room, ConnectedPlayer, LobbyRoomState}
use strajer.Room.Players.{Above, get}
use strajer.Room.State
use strajer.Room.State.{roster_player, roster_players}
use strajer.Room.Invariant.{IsRoom}
use strajer.Room.Invariant.Tables.{Entry, IsEntry}

abbrev pub IsNamed : Entry → Type 0
IsNamed (k, p) = validate_lobby_player_name p.name ≡ ok tt

-- An id within the places, and a name that passes the check of the protocol.
abbrev pub IsListed : ℕ → Entry → Type 0
IsListed maximum (k, p) = (k ≤ maximum) × (validate_lobby_player_name p.name ≡ ok tt)

length-roster_players : (m : List Entry) → length (roster_players m) ≡ length m
length-roster_players [] = refl
length-roster_players (p ∷ m) = omega (arith, length-roster_players m)

-- Rising ids within the places are no more than the places.
length-IsListed :
    (n maximum : ℕ) (m : List Entry)
    → n ≤ maximum
    → Above n m
    → All (IsListed maximum) m
    → n + length m ≤ maximum
length-IsListed n maximum [] h a e = omega arith
length-IsListed n maximum ((k, p) ∷ m) h a e =
    omega (arith, a.0, length-IsListed k maximum m e.0.0 a.1 e.1)

-- Numbers below `n` do not contain `n`.
contains-below : (n : ℕ) (seen : List ℕ) → All (λ x. x < n) seen → contains seen n ≡ false
contains-below n [] h = refl
contains-below n (x ∷ seen) h = ground (arith, contains-below n seen h.1)

below_mono : (m n : ℕ) (seen : List ℕ) → m ≤ n → All (λ x. x < m) seen → All (λ x. x < n) seen
below_mono m n [] e h = tt
below_mono m n (x ∷ seen) e h = (omega (arith, h.0), below_mono m n seen e h.1)

validate_players_lem :
    (maximum n : ℕ) (ids slots : List ℕ) (m : List Entry)
    → Above n m
    → All (IsListed maximum) m
    → All (λ x. x < n + 1) ids
    → All (λ x. x < n) slots
    → validate_players maximum ids slots (roster_players m) ≡ ok tt
unfolding validate_players validate_player
validate_players_lem maximum n ids slots [] a e hi hs = refl
validate_players_lem maximum n ids slots ((k, p) ∷ m) a e hi hs = ground (
  arith,
  contains-below k ids (below_mono (n + 1) k ids (omega (arith, a.0)) hi),
  contains-below (k - 1) slots (below_mono n (k - 1) slots (omega (arith, a.0)) hs),
  validate_players_lem maximum k (k ∷ ids) ((k - 1) ∷ slots) m a.1 e.1
      (omega arith, below_mono (n + 1) (k + 1) ids (omega (arith, a.0)) hi)
      (omega (arith, a.0), below_mono n k slots (omega (arith, a.0)) hs),
)

pub listed-validate :
    (maximum : ℕ) (s : LobbyRoomState)
    → Above 0 s.players
    → All (IsListed maximum) s.players
    → 0 < s.revision
    → 0 < maximum
    → maximum ≤ max_warcraft_players
    → validate maximum (State.roster s) ≡ ok tt
unfolding validate State.roster
listed-validate maximum s above listed revision places most = ground (
  arith,
  length-roster_players s.players,
  length-IsListed 0 maximum s.players (omega arith) above listed,
  validate_players_lem maximum 0 [] [] s.players above listed tt tt,
)

listed :
    (maximum next : ℕ) (m : List Entry)
    → All (IsEntry maximum next) m
    → All IsNamed m
    → All (IsListed maximum) m
listed maximum next [] e h = tt
listed maximum next ((k, p) ∷ m) e h = ((e.0.0, h.0), listed maximum next m e.1 h.1)

-- A room that satisfies the invariant, has 1 to 24 places and a positive revision, and whose players
-- passed the check of their names, publishes only rosters that `LobbyRoster::validate` accepts: every
-- id and slot in range, and no id or slot twice.
pub roster-validate :
    (r : Room)
    → IsRoom r
    → 0 < r.state.revision
    → 0 < r.maximum_players
    → r.maximum_players ≤ max_warcraft_players
    → All IsNamed r.state.players
    → validate r.maximum_players (State.roster r.state) ≡ ok tt
roster-validate r v revision places most names =
    listed-validate r.maximum_players r.state v.table.above
      (listed r.maximum_players r.state.next_session_id r.state.players v.table.entries names)
      revision places most

pub find_player_lem :
    (n k : ℕ) (m : List Entry) (p : ConnectedPlayer)
    → Above n m
    → get k m ≡ some p
    → find_player k (roster_players m) ≡ some (roster_player (k, p))
unfolding find_player
find_player_lem n k [] p a h = absurd (cc h)
find_player_lem n k ((j, q) ∷ m) p a h = ground (arith, find_player_lem j k m p a.1)

-- Every player of a room that satisfies the invariant is found in its roster under its id, with its name
-- and the slot before its id.
pub player-roster :
    (r : Room) (k : ℕ) (p : ConnectedPlayer)
    → IsRoom r
    → get k r.state.players ≡ some p
    → player (State.roster r.state) k
      ≡ some (record { player_id = k; slot_index = k - 1; name = p.name })
unfolding player State.roster
player-roster r k p v h = find_player_lem 0 k r.state.players p v.table.above h
