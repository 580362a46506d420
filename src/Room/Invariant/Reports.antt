-- ===== src/Room/Invariant/Reports.antt =====
-- Reports are only ever taken from the queues: the comparison keeps the rest of the table.
use strajer.Common.{
  ℕ, zero, suc, ◌≤◌, ◌≡◌, refl, Bool, List, [], ◌∷◌, All, length, is_empty, all, arith, Bool-cases,
  inl, inr,
}
use strajer.Room.{ConnectedPlayer}
use strajer.Room.Players.{Above, values}
use strajer.Room.Invariant.{IsTable}
use strajer.Room.Invariant.Tables.{Entry, IsEntry, Differs, Distinct}
use strajer.Room.Consensus.{
  pop_front, pop_checksums, all_reported, has_mismatch, consume_loop, rounds,
  consume_checksum_consensus,
}

-- The same players, with shorter queues.
abbrev pub Trimmed : List Entry → List Entry → Type 0
Trimmed [] [] = Unit {0}
Trimmed [] (q ∷ n) = ⊥
Trimmed (p ∷ m) [] = ⊥
Trimmed ((k, p) ∷ m) ((j, q) ∷ n) =
    (j ≡ k)
    × (q ≡ record p { checksums = q.checksums })
    × (length q.checksums ≤ length p.checksums)
    × Trimmed m n

Trimmed-refl : (m : List Entry) → Trimmed m m
Trimmed-refl [] = tt
Trimmed-refl ((k, p) ∷ m) = (refl, refl, omega arith, Trimmed-refl m)

pop_front-length : (cs : List ℕ) → length (pop_front cs) ≤ length cs
pop_front-length [] = omega arith
pop_front-length (c ∷ cs) = omega arith

Trimmed-pop : (m n : List Entry) → Trimmed (pop_checksums m) n → Trimmed m n
Trimmed-pop [] [] t = tt
Trimmed-pop [] (q ∷ n) t = t
Trimmed-pop ((k, p) ∷ m) [] t = t
Trimmed-pop ((k, p) ∷ m) ((j, q) ∷ n) t =
    (t.0, t.1, omega (arith, t.2, pop_front-length p.checksums), Trimmed-pop m n t.3)

consume_loop-Trimmed : (fuel : ℕ) (m : List Entry) → Trimmed m (consume_loop fuel m).1
unfolding consume_loop
consume_loop-Trimmed zero m = Trimmed-refl m
consume_loop-Trimmed (suc fuel) m =
    let popped = pop_checksums m in
    elim (Bool-cases (all_reported m)) [
      | inr e ↦ rw e (Trimmed-refl m)
      | inl e ↦ elim (Bool-cases (has_mismatch m)) [
        | inl f ↦ rw (e, f) (Trimmed-pop m popped (Trimmed-refl popped))
        | inr f ↦ rw (e, f) (Trimmed-pop m _ (consume_loop-Trimmed fuel popped))
      ]
    ]

pub consume_checksum_consensus-Trimmed :
    (m : List Entry) → Trimmed m (consume_checksum_consensus m).1
unfolding consume_checksum_consensus
consume_checksum_consensus-Trimmed m = consume_loop-Trimmed (rounds m) m

pub Trimmed-Above : (k : ℕ) (m n : List Entry) → Trimmed m n → Above k m → Above k n
Trimmed-Above k [] [] t a = tt
Trimmed-Above k [] (q ∷ n) t a = absurd t
Trimmed-Above k (p ∷ m) [] t a = tt
Trimmed-Above k ((i, p) ∷ m) ((j, q) ∷ n) t a = rw (t.0) (a.0, Trimmed-Above i m n t.3 a.1)

Trimmed-entries :
    (maximum next : ℕ) (m n : List Entry)
    → Trimmed m n
    → All (IsEntry maximum next) m
    → All (IsEntry maximum next) n
Trimmed-entries maximum next [] [] t a = tt
Trimmed-entries maximum next [] (q ∷ n) t a = absurd t
Trimmed-entries maximum next (p ∷ m) [] t a = tt
Trimmed-entries maximum next ((i, p) ∷ m) ((j, q) ∷ n) t a =
    ground (arith, Trimmed-entries maximum next m n t.3 a.1)

Trimmed-Differs :
    (p q : ConnectedPlayer) (m n : List Entry)
    → q ≡ record p { checksums = q.checksums }
    → Trimmed m n
    → Differs p m
    → Differs q n
Trimmed-Differs p q [] [] e t d = tt
Trimmed-Differs p q [] (s ∷ n) e t d = absurd t
Trimmed-Differs p q (s ∷ m) [] e t d = tt
Trimmed-Differs p q ((i, s) ∷ m) ((j, u) ∷ n) e t d =
    ground (arith, Trimmed-Differs p q m n e t.3 d.2)

Trimmed-Distinct : (m n : List Entry) → Trimmed m n → Distinct m → Distinct n
Trimmed-Distinct [] [] t d = tt
Trimmed-Distinct [] (q ∷ n) t d = absurd t
Trimmed-Distinct (p ∷ m) [] t d = tt
Trimmed-Distinct ((i, p) ∷ m) ((j, q) ∷ n) t d =
    (Trimmed-Differs p q m n t.1 t.3 d.0, Trimmed-Distinct m n t.3 d.1)

pub Trimmed-IsTable :
    (maximum next : ℕ) (m n : List Entry)
    → Trimmed m n
    → IsTable maximum next m
    → IsTable maximum next n
Trimmed-IsTable maximum next m n t v = record {
  above = Trimmed-Above 0 m n t v.above;
  entries = Trimmed-entries maximum next m n t v.entries;
  distinct = Trimmed-Distinct m n t v.distinct;
}

pub Trimmed-all :
    (f : ConnectedPlayer → Bool) (m n : List Entry)
    → ((p : ConnectedPlayer) (cs : List ℕ) → f (record p { checksums = cs }) ≡ f p)
    → Trimmed m n
    → all f (values n) ≡ all f (values m)
Trimmed-all f [] [] h t = refl
Trimmed-all f [] (q ∷ n) h t = absurd t
Trimmed-all f (p ∷ m) [] h t = absurd t
Trimmed-all f ((i, p) ∷ m) ((j, q) ∷ n) h t =
    rw (t.1, h p q.checksums, Trimmed-all f m n h t.3) refl

pub Trimmed-is_empty : (m n : List Entry) → Trimmed m n → is_empty n ≡ is_empty m
Trimmed-is_empty [] [] t = refl
Trimmed-is_empty [] (q ∷ n) t = absurd t
Trimmed-is_empty (p ∷ m) [] t = absurd t
Trimmed-is_empty (p ∷ m) (q ∷ n) t = refl
