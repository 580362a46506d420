-- ===== src/Room/Consensus/Agreement.antt =====
-- What `consume_checksum_consensus` finds: the longest common agreement of all reports.
use strajer.Common.{
  ℕ, zero, suc, ◌≤◌, ◌≡◌, ◌≢◌, ◌∙◌, ◌⊎◌, inl, inr, refl, sym, ap, Bool, true, false, not, List, [],
  ◌∷◌, ◌++◌, Option, none, some, arith, all, any, length, is_empty, Bool-cases, append_assoc,
}
use native.Mathlib.Decide.{ℕ_discrete}
use strajer.Room.{ConnectedPlayer}
use strajer.Room.Players.{values}
use strajer.Room.Consensus.{
  front, pop_front, option_eq, first_checksum, pop_checksums, all_reported, has_mismatch,
  consume_loop, rounds, consume_checksum_consensus,
}

abbrev pub Table : Type 0
Table = List (ℕ × ConnectedPlayer)

-- Everybody reported the checksums of `c` first, and then what stands in the second table.
abbrev pub Agreed : List ℕ → Table → Table → Type 0
Agreed c [] [] = Unit {0}
Agreed c [] (q ∷ m') = ⊥
Agreed c (p ∷ m) [] = ⊥
Agreed c ((k, p) ∷ m) ((j, q) ∷ m') =
    (j ≡ k)
    × (q ≡ record p { checksums = q.checksums })
    × (p.checksums ≡ c ++ q.checksums)
    × Agreed c m m'

-- Some player's oldest report is `x`.
abbrev pub HasFront : ℕ → Table → Type 0
HasFront x [] = ⊥
HasFront x ((k, p) ∷ m) = (front p.checksums ≡ some x) ⊎ HasFront x m

abbrev pub AllFront : ℕ → Table → Type 0
AllFront x [] = Unit {0}
AllFront x ((k, p) ∷ m) = (front p.checksums ≡ some x) × AllFront x m

Agreed-refl : (m : Table) → Agreed [] m m
Agreed-refl [] = tt
Agreed-refl ((k, p) ∷ m) = (refl, refl, refl, Agreed-refl m)

Agreed-trans : (c d : List ℕ) (m n o : Table) → Agreed c m n → Agreed d n o → Agreed (c ++ d) m o
Agreed-trans c d [] [] [] a b = tt
Agreed-trans c d [] [] (q ∷ o) a b = b
Agreed-trans c d [] (q ∷ n) o a b = absurd a
Agreed-trans c d (p ∷ m) [] o a b = absurd a
Agreed-trans c d (p ∷ m) (q ∷ n) [] a b = b
Agreed-trans c d ((k, p) ∷ m) ((j, q) ∷ n) ((i, s) ∷ o) a b = (
  b.0 ∙ a.0,
  ground arith,
  a.2 ∙ ap (◌++◌ c) b.2 ∙ sym (append_assoc c d s.checksums),
  Agreed-trans c d m n o a.3 b.3,
)

pop_checksums-Agreed : (x : ℕ) (m : Table) → AllFront x m → Agreed (x ∷ []) m (pop_checksums m)
pop_checksums-Agreed x [] a = tt
pop_checksums-Agreed x ((k, p) ∷ m) a =
    (refl, refl, popped p.checksums a.0, pop_checksums-Agreed x m a.1)
  where
    popped : (cs : List ℕ) → front cs ≡ some x → cs ≡ x ∷ pop_front cs
    popped [] e = cc
    popped (c ∷ cs) e = ground arith

-- Reports of everybody without a mismatch are all the same.
no_mismatch :
    (x : ℕ) (m : Table)
    → any (λ p. not (option_eq (front p.checksums) (some x))) (values m) ≡ false
    → AllFront x m
no_mismatch x [] e = tt
no_mismatch x ((k, p) ∷ m) e =
    (same (front p.checksums) (ground arith), no_mismatch x m (ground arith))
  where
    same : (o : Option ℕ) → option_eq o (some x) ≡ true → o ≡ some x
    same none e = cc
    same (some y) e = ground arith

front-some : (cs : List ℕ) → not (is_empty cs) ≡ true → (y : ℕ) × (front cs ≡ some y)
front-some [] e = absurd (cc e)
front-some (c ∷ cs) e = (c, refl)

mismatch :
    (x : ℕ) (m : Table)
    → all (λ p. not (is_empty p.checksums)) (values m) ≡ true
    → any (λ p. not (option_eq (front p.checksums) (some x))) (values m) ≡ true
    → (y : ℕ) × (y ≢ x) × HasFront y m
mismatch x [] r e = absurd (cc e)
mismatch x ((k, p) ∷ m) r e =
    let (y, oldest) = front-some p.checksums (ground arith) in
    elim (ℕ_discrete y x) [
      | no differ ↦ (y, differ, inl oldest)
      | yes same ↦
          let (z, differ, later) = mismatch x m (ground arith) (ground (arith, oldest, same)) in
          (z, differ, inr later)
    ]

first_checksum-HasFront :
    (m : Table) → all_reported m ≡ true → (x : ℕ) × (first_checksum m ≡ some x) × HasFront x m
unfolding first_checksum
first_checksum-HasFront [] e = absurd (cc e)
first_checksum-HasFront ((k, p) ∷ m) e =
    let (x, oldest) = front-some p.checksums (ground arith) in (x, ground arith, inl oldest)

-- Some player has no report left.
abbrev pub HasNone : Table → Type 0
HasNone [] = ⊥
HasNone ((k, p) ∷ m) = (p.checksums ≡ []) ⊎ HasNone m

-- Everybody had one more report in the first table than in the second.
abbrev pub Taken : Table → Table → Type 0
Taken [] [] = Unit {0}
Taken [] (q ∷ n) = ⊥
Taken (p ∷ m) [] = ⊥
Taken ((k, p) ∷ m) ((j, q) ∷ n) =
    (j ≡ k)
    × (q ≡ record p { checksums = q.checksums })
    × ((x : ℕ) × (p.checksums ≡ x ∷ q.checksums))
    × Taken m n

-- The reports of `m` are `c` for everybody and then those of `n`, in which someone has none left, if
-- there is anybody.
abbrev pub Exhausted : Table → Table → Type 0
Exhausted m n = (c : List ℕ) × Agreed c m n × ((n ≡ []) ⊎ HasNone n)

-- The reports of `m` are `c` for everybody, and then everybody has another one and two of these differ; `n`
-- is what is left behind them.
abbrev pub Disagreed : Table → Table → Type 0
Disagreed m n =
    (c : List ℕ) × (mid : Table) × (x : ℕ) × (y : ℕ) × Agreed c m mid
    × Taken mid n
    × HasFront x mid
    × HasFront y mid
    × (y ≢ x)

abbrev pub Verdict : Table → Bool × Table → Type 0
Verdict m (false, n) = Exhausted m n
Verdict m (true, n) = Disagreed m n

Verdict-later :
    (x : ℕ) (m : Table) (out : Bool × Table)
    → AllFront x m
    → Verdict (pop_checksums m) out
    → Verdict m out
Verdict-later x m (false, n) a (c, agreed, e) =
    (x ∷ c, Agreed-trans (x ∷ []) c m _ n (pop_checksums-Agreed x m a) agreed, e)
Verdict-later x m (true, n) a (c, mid, y, z, agreed, taken, hy, hz, differ) = (
  x ∷ c,
  mid,
  y,
  z,
  Agreed-trans (x ∷ []) c m _ mid (pop_checksums-Agreed x m a) agreed,
  taken,
  hy,
  hz,
  differ,
)

module _ (fuel : ℕ) (m : Table) where
  consume_stop : all_reported m ≡ false → consume_loop (suc fuel) m ≡ (false, m)
  unfolding consume_loop
  consume_stop e = rw e

  consume_fail :
      all_reported m ≡ true
      → has_mismatch m ≡ true
      → consume_loop (suc fuel) m ≡ (true, pop_checksums m)
  unfolding consume_loop
  consume_fail e f = rw (e, f)

  consume_more :
      all_reported m ≡ true
      → has_mismatch m ≡ false
      → consume_loop (suc fuel) m ≡ consume_loop fuel (pop_checksums m)
  unfolding consume_loop
  consume_more e f = rw (e, f)

drained : (m : Table) → rounds m ≤ 0 → all_reported m ≡ false
drained [] h = refl
drained ((k, p) ∷ m) h = rw (none_left p.checksums h)
  where
    none_left : (cs : List ℕ) → length cs ≤ 0 → is_empty cs ≡ true
    none_left [] h = refl
    none_left (c ∷ cs) h = absurd (omega arith)

fewer_rounds : (fuel : ℕ) (m : Table) → rounds m ≤ suc fuel → rounds (pop_checksums m) ≤ fuel
fewer_rounds fuel [] h = omega arith
fewer_rounds fuel ((k, p) ∷ m) h = shorter p.checksums h
  where
    shorter : (cs : List ℕ) → length cs ≤ suc fuel → length (pop_front cs) ≤ fuel
    shorter [] h = omega arith
    shorter (c ∷ cs) h = omega arith

pop_checksums-Taken :
    (m : Table)
    → all (λ p. not (is_empty p.checksums)) (values m) ≡ true
    → Taken m (pop_checksums m)
pop_checksums-Taken [] e = tt
pop_checksums-Taken ((k, p) ∷ m) e =
    (refl, refl, one_more p.checksums (ground arith), pop_checksums-Taken m (ground arith))
  where
    one_more : (cs : List ℕ) → not (is_empty cs) ≡ true → (x : ℕ) × (cs ≡ x ∷ pop_front cs)
    one_more [] e = absurd (cc e)
    one_more (c ∷ cs) e = (c, refl)

incomplete-HasNone :
    (m : Table) → all (λ p. not (is_empty p.checksums)) (values m) ≡ false → HasNone m
incomplete-HasNone [] e = absurd (cc e)
incomplete-HasNone ((k, p) ∷ m) e = elim (Bool-cases (is_empty p.checksums)) [
  | inl nothing ↦ inl (ground arith)
  | inr some_left ↦ inr (incomplete-HasNone m (ground arith))
]

incomplete : (m : Table) → all_reported m ≡ false → (m ≡ []) ⊎ HasNone m
incomplete [] e = inl refl
incomplete (p ∷ m) e = inr (incomplete-HasNone (p ∷ m) (ground arith))

disagreement :
    (m : Table) → all_reported m ≡ true → has_mismatch m ≡ true → Disagreed m (pop_checksums m)
disagreement m e f =
    let (x, first, hx) = first_checksum-HasFront m e in
    let (y, differ, hy) = mismatch x m (ground arith) (rw first at f) in
    ([], m, x, y, Agreed-refl m, pop_checksums-Taken m (ground arith), hx, hy, differ)

agreement : (m : Table) → all_reported m ≡ true → has_mismatch m ≡ false → (x : ℕ) × AllFront x m
agreement m e f =
    let (x, first, _) = first_checksum-HasFront m e in (x, no_mismatch x m (rw first at f))

-- Before each round the fuel covers the first player's queue.
consume_loop-Verdict : (fuel : ℕ) (m : Table) → rounds m ≤ fuel → Verdict m (consume_loop fuel m)
consume_loop-Verdict zero m h =
    unfold consume_loop in ([], Agreed-refl m, incomplete m (drained m h))
consume_loop-Verdict (suc fuel) m h = elim (Bool-cases (all_reported m)) [
  | inr e ↦ rw (consume_stop fuel m e) ([], Agreed-refl m, incomplete m e)
  | inl e ↦ elim (Bool-cases (has_mismatch m)) [
    | inl f ↦ rw (consume_fail fuel m e f) (disagreement m e f)
    | inr f ↦
        let (x, fronts) = agreement m e f in
        rw (consume_more fuel m e f) (
          Verdict-later x m _ fronts
            (consume_loop-Verdict fuel (pop_checksums m) (fewer_rounds fuel m h)))
  ]
]

-- The loop over the reports ends, and its verdict is right. `false` means that all players reported the
-- same checksums up to the point where one of them has none left, and these were taken from the queues;
-- `true` means that, behind checksums on which all agree, everybody has reported one more and two of these
-- differ, and that the common ones and these were taken from the queues.
pub consume_checksum_consensus_lem : (m : Table) → Verdict m (consume_checksum_consensus m)
unfolding consume_checksum_consensus
consume_checksum_consensus_lem m = consume_loop-Verdict (rounds m) m (omega arith)
