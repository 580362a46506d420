-- ===== src/Room/Invariant/Tables.antt =====
-- Tables of players: what the operations on them preserve.
use strajer.Common.{
  ℕ, zero, suc, ◌+◌, ◌≤◌, ◌<◌, ◌≡◌, ◌≢◌, refl, Bool, true, false, List, [], ◌∷◌, none, some, All,
  length, is_empty, all, arith, list_eq_iff,
}
use strajer.Common.Texts.{Text}
use strajer.Room.{ConnectedPlayer, max_pending_checksums_per_player}
use strajer.Room.Players.{get, insert, remove, modify, values, contains_key}
use strajer.Room.Lobby.{first_free, name_taken, new_player}

abbrev pub Entry : Type 0
Entry = ℕ × ConnectedPlayer

abbrev pub IsEntry : ℕ → ℕ → Entry → Type 0
IsEntry maximum next_session_id (k, p) =
    (k ≤ maximum)
    × (p.session_id < next_session_id)
    × (length p.checksums ≤ max_pending_checksums_per_player)

-- No entry of the list has this session or this name.
abbrev pub Differs : ConnectedPlayer → List Entry → Type 0
Differs p [] = Unit {0}
Differs p ((k, q) ∷ m) = (p.session_id ≢ q.session_id) × (p.name ≢ q.name) × Differs p m

abbrev pub Distinct : List Entry → Type 0
Distinct [] = Unit {0}
Distinct ((k, p) ∷ m) = Differs p m × Distinct m

-- A change that keeps the session and the name.
abbrev pub SameIdentity : (ConnectedPlayer → ConnectedPlayer) → Type 0
SameIdentity f = (p : ConnectedPlayer) → ((f p).session_id ≡ p.session_id) × ((f p).name ≡ p.name)

Differs-modify :
    (p : ConnectedPlayer) (k : ℕ) (f : ConnectedPlayer → ConnectedPlayer) (m : List Entry)
    → SameIdentity f
    → Differs p m
    → Differs p (modify k f m)
unfolding modify
Differs-modify p k f [] same d = tt
Differs-modify p k f ((j, q) ∷ m) same d = ground (arith, Differs-modify p k f m same d.2, same q)

Differs-same :
    (p p' : ConnectedPlayer) (m : List Entry)
    → (p'.session_id ≡ p.session_id) × (p'.name ≡ p.name)
    → Differs p m
    → Differs p' m
Differs-same p p' [] e d = tt
Differs-same p p' ((j, q) ∷ m) e d = ground (arith, Differs-same p p' m e d.2)

pub modify-Distinct :
    (k : ℕ) (f : ConnectedPlayer → ConnectedPlayer) (m : List Entry)
    → SameIdentity f
    → Distinct m
    → Distinct (modify k f m)
unfolding modify
modify-Distinct k f [] same d = tt
modify-Distinct k f ((j, q) ∷ m) same d = ground (
  arith,
  Differs-same q (f q) m (same q) d.0,
  modify-Distinct k f m same d.1,
  Differs-modify q k f m same d.0,
)

Differs-remove :
    (p : ConnectedPlayer) (k : ℕ) (m : List Entry) → Differs p m → Differs p (remove k m)
unfolding remove
Differs-remove p k [] d = tt
Differs-remove p k ((j, q) ∷ m) d = ground (arith, Differs-remove p k m d.2)

pub remove-Distinct : (k : ℕ) (m : List Entry) → Distinct m → Distinct (remove k m)
unfolding remove
remove-Distinct k [] d = tt
remove-Distinct k ((j, q) ∷ m) d = ground (arith, remove-Distinct k m d.1, Differs-remove q k m d.0)

-- A new player with a fresh session and a free name differs from all the others.
pub Differs-fresh :
    (next : ℕ) (name : Text) (maximum : ℕ) (m : List Entry)
    → All (IsEntry maximum next) m
    → name_taken name m ≡ false
    → Differs (new_player next name) m
Differs-fresh next name maximum [] h taken = tt
Differs-fresh next name maximum ((k, p) ∷ m) h taken =
    ground (arith, Differs-fresh next name maximum m h.1, list_eq_iff p.name name)

Differs-insert :
    (p q : ConnectedPlayer) (k : ℕ) (m : List Entry)
    → p.session_id ≢ q.session_id
    → p.name ≢ q.name
    → Differs p m
    → Differs p (insert k q m)
unfolding insert
Differs-insert p q k [] s n d = (s, n, tt)
Differs-insert p q k ((j, r) ∷ m) s n d = ground (arith, Differs-insert p q k m s n d.2)

pub insert-Distinct :
    (k : ℕ) (q : ConnectedPlayer) (m : List Entry)
    → get k m ≡ none
    → Differs q m
    → Distinct m
    → Distinct (insert k q m)
unfolding insert
insert-Distinct k q [] free h d = (tt, tt)
insert-Distinct k q ((j, r) ∷ m) free h d =
    ground (arith, insert-Distinct k q m, Differs-insert r q k m)

-- A free id lies in the range of the candidates and is not in use.
pub first_free_lem :
    (n candidate : ℕ) (m : List Entry) (k : ℕ)
    → first_free n candidate m ≡ some k
    → (candidate ≤ k) × (k < candidate + n) × (contains_key k m ≡ false)
unfolding first_free
first_free_lem zero candidate m k e = absurd (cc e)
first_free_lem (suc n) candidate m k e = ground (arith, first_free_lem n (candidate + 1) m k)

pub contains_key-get : (k : ℕ) (m : List Entry) → contains_key k m ≡ false → get k m ≡ none
contains_key-get k [] e = refl
contains_key-get k ((j, p) ∷ m) e = ground (arith, contains_key-get k m)

-- Tests of all players.
module _ (t : ConnectedPlayer → Bool) (f : ConnectedPlayer → ConnectedPlayer) where
  pub all-modify_same :
      (k : ℕ) (m : List Entry)
      → ((p : ConnectedPlayer) → t (f p) ≡ t p)
      → all t (values (modify k f m)) ≡ all t (values m)
  unfolding modify
  all-modify_same k [] h = refl
  all-modify_same k ((j, p) ∷ m) h = ground (arith, all-modify_same k m h, h p)

  pub all-modify_up :
      (k : ℕ) (m : List Entry)
      → ((p : ConnectedPlayer) → t (f p) ≡ true)
      → all t (values m) ≡ true
      → all t (values (modify k f m)) ≡ true
  unfolding modify
  all-modify_up k [] h a = refl
  all-modify_up k ((j, p) ∷ m) h a = ground (arith, all-modify_up k m h, h p)

pub all-remove :
    (t : ConnectedPlayer → Bool) (k : ℕ) (m : List Entry)
    → all t (values m) ≡ true
    → all t (values (remove k m)) ≡ true
unfolding remove
all-remove t k [] a = refl
all-remove t k ((j, p) ∷ m) a = ground (arith, all-remove t k m)

pub is_empty-modify :
    (k : ℕ) (f : ConnectedPlayer → ConnectedPlayer) (m : List Entry)
    → is_empty (modify k f m) ≡ is_empty m
unfolding modify
is_empty-modify k f [] = refl
is_empty-modify k f ((j, p) ∷ m) = ground arith

pub is_empty-insert :
    (k : ℕ) (q : ConnectedPlayer) (m : List Entry) → is_empty (insert k q m) ≡ false
unfolding insert
is_empty-insert k q [] = refl
is_empty-insert k q ((j, p) ∷ m) = ground arith

-- Sessions of an older table stay below a later bound.
pub IsEntry-mono :
    (maximum next next' : ℕ) (m : List Entry)
    → next ≤ next'
    → All (IsEntry maximum next) m
    → All (IsEntry maximum next') m
IsEntry-mono maximum next next' [] h a = tt
IsEntry-mono maximum next next' ((k, p) ∷ m) h a =
    (omega (arith, a.0), IsEntry-mono maximum next next' m h a.1)
