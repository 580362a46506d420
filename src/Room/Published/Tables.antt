-- ===== src/Room/Published/Tables.antt =====
-- What the handlers do to the table of players keeps it listable.
use strajer.Common.{
  ℕ, ◌≤◌, ◌<◌, ◌≡◌, refl, false, not, List, [], ◌∷◌, none, some, ok, ok_or, All, arith,
  Option-cases, inl, inr,
}
use strajer.Common.Texts.{Text}
use strajer.Protocol.{max_warcraft_players}
use strajer.Protocol.Roster.{validate, player, find_player}
use strajer.Room.{ConnectedPlayer, LobbyRoomState, LobbyMembershipError}
use strajer.Room.Players.{
  Above, get, modify, remove, modify-Above, remove-Above, All-remove, All-get, get-Above,
  get-remove,
}
use strajer.Room.State
use strajer.Room.State.{
  next_revision, with_session, require_active_session, session_matches, accept_game_sequence,
  with_sequence, roster_players,
}
use strajer.Room.Lobby.{set_ready, set_chat}
use strajer.Room.Play.{set_loaded, push_checksum, departed}
use strajer.Room.Consensus.{consume_checksum_consensus}
use strajer.Room.Rosters.{IsListed, listed-validate}
use strajer.Room.Invariant.Tables.{Entry}
use strajer.Room.Invariant.Reports.{Trimmed, Trimmed-Above, consume_checksum_consensus-Trimmed}
use strajer.Room.Invariant.Play.{accept_game_sequence-ok}
use strajer.Room.Published.{IsPlace, IsGood}

-- A player who is not in the table is not in its roster.
find_player-none :
    (n k : ℕ) (m : List Entry)
    → Above n m
    → get k m ≡ none
    → find_player k (roster_players m) ≡ none
unfolding find_player
find_player-none n k [] a e = refl
find_player-none n k ((j, p) ∷ m) a e = ground (arith, find_player-none j k m a.1)

module _ (maximum : ℕ) where
  modify-IsListed :
      (k : ℕ) (f : ConnectedPlayer → ConnectedPlayer) (m : List Entry)
      → ((p : ConnectedPlayer) → (f p).name ≡ p.name)
      → All (IsListed maximum) m
      → All (IsListed maximum) (modify k f m)
  unfolding modify
  modify-IsListed k f [] same h = tt
  modify-IsListed k f ((j, p) ∷ m) same h = ground (arith, modify-IsListed k f m same h.1, same p)

  modify-IsGood :
      (k n : ℕ) (f : ConnectedPlayer → ConnectedPlayer) (m : List Entry)
      → ((p : ConnectedPlayer) → (f p).name ≡ p.name)
      → IsGood maximum n m
      → IsGood maximum n (modify k f m)
  modify-IsGood k n f m same g = record {
    above = modify-Above 0 k f m g.above;
    listed = modify-IsListed k f m same g.listed;
    revised = g.revised;
  }

  Trimmed-IsListed :
      (m n : List Entry) → Trimmed m n → All (IsListed maximum) m → All (IsListed maximum) n
  Trimmed-IsListed [] [] t h = tt
  Trimmed-IsListed [] (q ∷ n) t h = absurd t
  Trimmed-IsListed (p ∷ m) [] t h = absurd t
  Trimmed-IsListed ((i, p) ∷ m) ((j, q) ∷ n) t h = (rw (t.0, t.1) h.0, Trimmed-IsListed m n t.3 h.1)

  -- A player in the table has one of its places.
  get-IsPlace :
      (k n : ℕ) (m : List Entry) (p : ConnectedPlayer)
      → get k m ≡ some p
      → IsGood maximum n m
      → IsPlace maximum k
  get-IsPlace k n m p e g =
      ground (arith, All-get (IsListed maximum) k m p e g.listed, get-Above 0 k m g.above)

module _ {maximum n : ℕ} {m : List Entry} (k : ℕ) (g : IsGood maximum n m) where
  pub set_ready-IsGood : IsGood maximum n (modify k set_ready m)
  set_ready-IsGood = modify-IsGood maximum k n set_ready m (λ p. refl) g

  pub set_loaded-IsGood : IsGood maximum n (modify k set_loaded m)
  set_loaded-IsGood = modify-IsGood maximum k n set_loaded m (λ p. refl) g

  pub set_chat-IsGood :
      (message : Text) (now : ℕ) → IsGood maximum n (modify k (set_chat message now) m)
  set_chat-IsGood message now = modify-IsGood maximum k n (set_chat message now) m (λ p. refl) g

  pub push_checksum-IsGood : (checksum : ℕ) → IsGood maximum n (modify k (push_checksum checksum) m)
  push_checksum-IsGood checksum = modify-IsGood maximum k n (push_checksum checksum) m (λ p. refl) g

module _ {maximum n : ℕ} {m : List Entry} (g : IsGood maximum n m) where
  pub consumed-IsGood : IsGood maximum n (consume_checksum_consensus m).1
  consumed-IsGood =
      let t = consume_checksum_consensus-Trimmed m in
      record {
        above = Trimmed-Above 0 m _ t g.above;
        listed = Trimmed-IsListed maximum m _ t g.listed;
        revised = g.revised;
      }

  pub found-IsPlace :
      (k session : ℕ) (p : ConnectedPlayer)
      → ok_or (with_session session (get k m)) LobbyMembershipError.unknown_session ≡ ok p
      → IsPlace maximum k
  found-IsPlace k session p e = elim (Option-cases (get k m)) [
    | inl absent ↦ absurd (cc (rw absent at e))
    | inr (q, found) ↦ get-IsPlace maximum k n m q found g
  ]

module _ {maximum : ℕ} (s : LobbyRoomState) (g : IsGood maximum s.revision s.players) where
  pub active-IsPlace :
      (k session : ℕ) → require_active_session s k session ≡ ok tt → IsPlace maximum k
  unfolding require_active_session
  active-IsPlace k session e = elim (Option-cases (get k s.players)) [
    | inl absent ↦ absurd (cc (rw absent at e))
    | inr (q, found) ↦ get-IsPlace maximum k s.revision s.players q found g
  ]

  pub accepted-IsGood :
      (s' : LobbyRoomState) (k sequence : ℕ)
      → accept_game_sequence s k sequence ≡ ok s'
      → IsGood maximum s'.revision s'.players
  accepted-IsGood s' k sequence e =
      let (p, _, _, after) = accept_game_sequence-ok s s' k sequence e in
      rw after (modify-IsGood maximum k s.revision (with_sequence sequence) s.players (λ p. refl) g)

  pub departed-IsGood : (k : ℕ) → IsGood maximum (departed k s).revision (departed k s).players
  departed-IsGood k = record {
    above = remove-Above 0 k s.players g.above;
    listed = All-remove (IsListed maximum) k s.players g.listed;
    revised = ground arith;
  }

  pub departed-Fits :
      (k : ℕ)
      → 0 < maximum
      → maximum ≤ max_warcraft_players
      → validate maximum (State.roster (departed k s)) ≡ ok tt
  departed-Fits k positive most =
      let after = departed-IsGood k in
      listed-validate maximum (departed k s) after.above after.listed after.revised positive most

  pub departed-player : (k : ℕ) → player (State.roster (departed k s)) k ≡ none
  unfolding player State.roster
  departed-player k =
      find_player-none 0 k (remove k s.players) (remove-Above 0 k s.players g.above)
        (ground (arith, get-remove 0 k k s.players g.above))

  pub matched-IsPlace :
      (k session : ℕ) → not (session_matches session (get k s.players)) ≡ false → IsPlace maximum k
  matched-IsPlace k session e = elim (Option-cases (get k s.players)) [
    | inl absent ↦ absurd (cc (rw absent at e))
    | inr (q, found) ↦ get-IsPlace maximum k s.revision s.players q found g
  ]
