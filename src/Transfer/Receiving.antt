-- ===== src/Transfer/Receiving.antt =====
-- The other end of the map transfer of apps/strajer-agent/src/main.rs: a receiver that takes the parts of
-- crates/strajer-w3gs/src/map.rs apart and puts the map together.
use strajer.Common.{
  ℕ, ◌+◌, ◌≤◌, ◌≡◌, ap, ◌∙◌, ◌&&◌, List, [], ◌∷◌, ◌++◌, Option, none, some, ◌==◌, if◌then◌else◌,
  length, take, drop, list_eq, list_eq_iff, arith, append_assoc, length-append, Option-cases, inl,
  inr,
}
use strajer.Common.Bytes.{Bytes, u32_max, from_le_bytes, to_le_bytes, from_le_bytes-to_le_bytes}
use strajer.Frame.{Frame}
use strajer.Frame.Shape.{framed}
use strajer.Maps.{map_part_payload}

-- The number in the four bytes at an offset.
abbrev pub field : ℕ → Bytes → ℕ
field i p = from_le_bytes (take 4 (drop i p))

-- The bytes of a part between two players that stands at an offset of the map and has its checksum.
abbrev pub receive_part : (Bytes → ℕ) → ℕ → ℕ → ℕ → Frame → Option Bytes
receive_part hash from_id to_id start f =
    if f.packet_id == 0x43
      && list_eq (take 2 f.payload) (to_id ∷ from_id ∷ [])
      && field 2 f.payload == 1
      && field 6 f.payload == start
      && list_eq (take 4 (drop 10 f.payload)) (to_le_bytes 4 (hash (drop 14 f.payload)))
    then some (drop 14 f.payload)
    else none

abbrev pub followed_by : Bytes → Option Bytes → Option Bytes
followed_by bytes none = none
followed_by bytes (some rest) = some (bytes ++ rest)

abbrev pub and_then : Option Bytes → (Bytes → Option Bytes) → Option Bytes
and_then none k = none
and_then (some bytes) k = k bytes

-- The bytes of parts that follow each other from an offset on.
abbrev pub assemble : (Bytes → ℕ) → ℕ → ℕ → ℕ → List Frame → Option Bytes
assemble hash from_id to_id start [] = some []
assemble hash from_id to_id start (f ∷ fs) =
    and_then (receive_part hash from_id to_id start f)
      λ bytes. followed_by bytes (assemble hash from_id to_id (start + length bytes) fs)

module _ (hash : Bytes → ℕ) (from_id to_id : ℕ) where
  pub receive_part-payload :
      (start : ℕ) (bytes : Bytes)
      → start ≤ u32_max
      → receive_part hash from_id to_id start
          (framed 0x43 (map_part_payload hash from_id to_id start bytes))
        ≡ some bytes
  unfolding map_part_payload
  receive_part-payload start bytes h = ground (
    arith,
    from_le_bytes-to_le_bytes 4 start (omega arith),
    list_eq_iff (to_id ∷ from_id ∷ []) (to_id ∷ from_id ∷ []),
    list_eq_iff (to_le_bytes 4 (hash bytes)) (to_le_bytes 4 (hash bytes)),
  )

  pub assemble-part :
      (start : ℕ) (f : Frame) (fs : List Frame) (bytes rest : Bytes)
      → receive_part hash from_id to_id start f ≡ some bytes
      → assemble hash from_id to_id (start + length bytes) fs ≡ some rest
      → assemble hash from_id to_id start (f ∷ fs) ≡ some (bytes ++ rest)
  assemble-part start f fs bytes rest e e' =
      ap (λ x. and_then x λ bs. followed_by bs (assemble hash from_id to_id (start + length bs) fs))
        e
      ∙ ap (followed_by bytes) e'

  assemble_cases :
      (start : ℕ) (f : Frame) (fs : List Frame) (xs : Bytes)
      → assemble hash from_id to_id start (f ∷ fs) ≡ some xs
      → (bytes rest : Bytes) × (receive_part hash from_id to_id start f ≡ some bytes)
        × (assemble hash from_id to_id (start + length bytes) fs ≡ some rest)
        × (xs ≡ bytes ++ rest)
  assemble_cases start f fs xs e = elim (Option-cases (receive_part hash from_id to_id start f)) [
    | inl lost ↦ absurd (cc (rw lost at e))
    | inr (bytes, found) ↦
        elim (Option-cases (assemble hash from_id to_id (start + length bytes) fs)) [
          | inl lost ↦ absurd (cc (rw (found, lost) at e))
          | inr (rest, follows) ↦ (bytes, rest, found, follows, cc (rw (found, follows) at e))
        ]
  ]

  pub assemble-append :
      (start stop : ℕ) (fs gs : List Frame) (xs ys : Bytes)
      → assemble hash from_id to_id start fs ≡ some xs
      → stop ≡ start + length xs
      → assemble hash from_id to_id stop gs ≡ some ys
      → assemble hash from_id to_id start (fs ++ gs) ≡ some (xs ++ ys)
  assemble-append start stop [] gs [] ys e same e' =
      ap (λ k. assemble hash from_id to_id k gs) (omega arith) ∙ e'
  assemble-append start stop [] gs (x ∷ xs) ys e same e' = absurd (cc e)
  assemble-append start stop (f ∷ fs) gs xs ys e same e' =
      let (bytes, rest, found, follows, whole) = assemble_cases start f fs xs e in
      let behind =
        assemble-append (start + length bytes) stop fs gs rest ys follows
          (omega (arith, ap length whole, length-append bytes rest)) e' in
      rw (whole, append_assoc bytes rest ys)
        (assemble-part start f (fs ++ gs) bytes (rest ++ ys) found behind)
