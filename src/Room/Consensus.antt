-- ===== src/Room/Consensus.antt =====
-- `LobbyRoomState::consume_checksum_consensus` of apps/strajer-server/src/lobby.rs: every player reports
-- a checksum for each timeslot, and the oldest reports of all players are compared.
pub mod Agreement
use strajer.Common.{
  ℕ, zero, suc, Bool, true, false, not, ◌&&◌, List, [], ◌∷◌, Option, none, some, ◌==◌,
  if◌then◌else◌, all, any, length, is_empty,
}
use strajer.Room.{ConnectedPlayer}
use strajer.Room.Players.{values}

-- `queue.front().copied()`
abbrev pub front : List ℕ → Option ℕ
front [] = none
front (c ∷ cs) = some c

-- `queue.pop_front()`
abbrev pub pop_front : List ℕ → List ℕ
pop_front [] = []
pop_front (c ∷ cs) = cs

abbrev pub option_eq : Option ℕ → Option ℕ → Bool
option_eq none none = true
option_eq none (some b) = false
option_eq (some a) none = false
option_eq (some a) (some b) = a == b

-- `.values().find_map(|player| player.checksums.front().copied())`
unfoldable pub first_checksum : List (ℕ × ConnectedPlayer) → Option ℕ
first_checksum [] = none
first_checksum ((k, p) ∷ m) = elim (front p.checksums) [ some c ↦ some c | none ↦ first_checksum m ]

abbrev pub pop_checksums : List (ℕ × ConnectedPlayer) → List (ℕ × ConnectedPlayer)
pop_checksums [] = []
pop_checksums ((k, p) ∷ m) = (k, record p { checksums = pop_front p.checksums }) ∷ pop_checksums m

-- The loop's condition.
abbrev pub all_reported : List (ℕ × ConnectedPlayer) → Bool
all_reported m = not (is_empty m) && all (λ p. not (is_empty p.checksums)) (values m)

abbrev pub has_mismatch : List (ℕ × ConnectedPlayer) → Bool
has_mismatch m = any (λ p. not (option_eq (front p.checksums) (first_checksum m))) (values m)

unfoldable pub consume_loop : ℕ → List (ℕ × ConnectedPlayer) → Bool × List (ℕ × ConnectedPlayer)
consume_loop zero m = (false, m)
consume_loop (suc fuel) m =
    let popped = pop_checksums m in
    let rest = consume_loop fuel popped in
    if all_reported m then (if has_mismatch m then (true, popped) else rest) else (false, m)

-- Each round takes a report from every player, so the first player's queue bounds the rounds.
abbrev pub rounds : List (ℕ × ConnectedPlayer) → ℕ
rounds [] = 0
rounds ((k, p) ∷ m) = length p.checksums

-- Whether the reports disagree, and the players after it.
unfoldable pub consume_checksum_consensus :
    List (ℕ × ConnectedPlayer) → Bool × List (ℕ × ConnectedPlayer)
consume_checksum_consensus m = consume_loop (rounds m) m
