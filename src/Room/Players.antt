-- ===== src/Room/Players.antt =====
-- The `BTreeMap` of a room: an association list in the order of its keys.
use strajer.Common.{
  ℕ, suc, ◌≤◌, ◌<◌, ◌≡◌, refl, Bool, true, false, List, [], ◌∷◌, Option, none, some, ltb, ◌==◌,
  if◌then◌else◌, arith, All, length,
}

module _ {ℓ} {V : Type ℓ} where
  abbrev pub get : ℕ → List (ℕ × V) → Option V
  get k [] = none
  get k ((j, v) ∷ m) = if j == k then some v else get k m

  abbrev pub contains_key : ℕ → List (ℕ × V) → Bool
  contains_key k [] = false
  contains_key k ((j, v) ∷ m) = if j == k then true else contains_key k m

  unfoldable pub insert : ℕ → V → List (ℕ × V) → List (ℕ × V)
  insert k v [] = (k, v) ∷ []
  insert k v ((j, w) ∷ m) =
      if ltb k j then (k, v) ∷ (j, w) ∷ m else if j == k then (k, v) ∷ m else (j, w) ∷ insert k v m

  unfoldable pub remove : ℕ → List (ℕ × V) → List (ℕ × V)
  remove k [] = []
  remove k ((j, v) ∷ m) = if j == k then m else (j, v) ∷ remove k m

  -- A change through `get_mut`.
  unfoldable pub modify : ℕ → (V → V) → List (ℕ × V) → List (ℕ × V)
  modify k f [] = []
  modify k f ((j, v) ∷ m) = if j == k then (j, f v) ∷ m else (j, v) ∷ modify k f m

  abbrev pub values : List (ℕ × V) → List V
  values [] = []
  values ((k, v) ∷ m) = v ∷ values m

  abbrev pub keys : List (ℕ × V) → List ℕ
  keys [] = []
  keys ((k, v) ∷ m) = k ∷ keys m

  -- The keys rise, and all lie above the bound.
  abbrev pub Above : ℕ → List (ℕ × V) → Type 0
  Above n [] = Unit {0}
  Above n ((k, v) ∷ m) = (n < k) × Above k m

module _ {ℓ} {V : Type ℓ} where
  pub Above-mono : (m n : ℕ) (xs : List (ℕ × V)) → m ≤ n → Above n xs → Above m xs
  Above-mono m n [] h a = tt
  Above-mono m n ((k, v) ∷ xs) h a = (omega arith, a.1)

  pub insert-Above :
      (n k : ℕ) (v : V) (xs : List (ℕ × V)) → n < k → Above n xs → Above n (insert k v xs)
  unfolding insert
  insert-Above n k v [] h a = (h, tt)
  insert-Above n k v ((j, w) ∷ xs) h a = ground (arith, insert-Above j k v xs)

  pub remove-Above : (n k : ℕ) (xs : List (ℕ × V)) → Above n xs → Above n (remove k xs)
  unfolding remove
  remove-Above n k [] a = tt
  remove-Above n k ((j, w) ∷ xs) a = ground (arith, remove-Above j k xs, Above-mono n j xs)

  pub modify-Above :
      (n k : ℕ) (f : V → V) (xs : List (ℕ × V)) → Above n xs → Above n (modify k f xs)
  unfolding modify
  modify-Above n k f [] a = tt
  modify-Above n k f ((j, w) ∷ xs) a = ground (arith, modify-Above j k f xs)

  pub get-insert :
      (k j : ℕ) (v : V) (xs : List (ℕ × V))
      → get j (insert k v xs) ≡ (if k == j then some v else get j xs)
  unfolding insert
  get-insert k j v [] = refl
  get-insert k j v ((i, w) ∷ xs) = ground (arith, get-insert k j v xs)

  pub get-Above : (n k : ℕ) (xs : List (ℕ × V)) → Above n xs → k ≤ n → get k xs ≡ none
  get-Above n k [] a h = refl
  get-Above n k ((i, w) ∷ xs) a h = ground (arith, get-Above i k xs)

  pub get-remove :
      (n k j : ℕ) (xs : List (ℕ × V))
      → Above n xs
      → get j (remove k xs) ≡ (if k == j then none else get j xs)
  unfolding remove
  get-remove n k j [] a = ground arith
  get-remove n k j ((i, w) ∷ xs) a = ground (arith, get-remove i k j xs, get-Above i k xs)

  pub get-modify :
      (k j : ℕ) (f : V → V) (xs : List (ℕ × V)) (v : V)
      → get k xs ≡ some v
      → get j (modify k f xs) ≡ (if k == j then some (f v) else get j xs)
  unfolding modify
  get-modify k j f [] v e = cc
  get-modify k j f ((i, w) ∷ xs) v e = ground (arith, get-modify k j f xs v)

  pub length-remove-some :
      (k : ℕ) (xs : List (ℕ × V)) (v : V)
      → get k xs ≡ some v
      → length xs ≡ suc (length (remove k xs))
  unfolding remove
  length-remove-some k [] v e = cc
  length-remove-some k ((i, w) ∷ xs) v e = ground (arith, length-remove-some k xs v)

  pub keys-modify : (k : ℕ) (f : V → V) (xs : List (ℕ × V)) → keys (modify k f xs) ≡ keys xs
  unfolding modify
  keys-modify k f [] = refl
  keys-modify k f ((i, w) ∷ xs) = ground (arith, keys-modify k f xs)

  -- A property of every entry survives the operations.
  module _ {κ} (P : ℕ × V → Type κ) where
    pub All-insert :
        (k : ℕ) (v : V) (xs : List (ℕ × V)) → P (k, v) → All P xs → All P (insert k v xs)
    unfolding insert
    All-insert k v [] h a = (h, tt)
    All-insert k v ((j, w) ∷ xs) h a = ground (arith, All-insert k v xs h a.1)

    pub All-remove : (k : ℕ) (xs : List (ℕ × V)) → All P xs → All P (remove k xs)
    unfolding remove
    All-remove k [] a = tt
    All-remove k ((j, w) ∷ xs) a = ground (arith, All-remove k xs a.1)

    pub All-modify :
        (k : ℕ) (f : V → V) (xs : List (ℕ × V)) (v : V)
        → get k xs ≡ some v
        → P (k, f v)
        → All P xs
        → All P (modify k f xs)
    unfolding modify
    All-modify k f [] v e h a = tt
    All-modify k f ((j, w) ∷ xs) v e h a = ground (arith, All-modify k f xs v)

    pub All-get : (k : ℕ) (xs : List (ℕ × V)) (v : V) → get k xs ≡ some v → All P xs → P (k, v)
    All-get k [] v e a = absurd (cc e)
    All-get k ((j, w) ∷ xs) v e a = ground (arith, All-get k xs v)
