-- ===== src/Protocol/Catalog/Versions.antt =====
-- Which Warcraft versions the catalog accepts.
use strajer.Common.{
  ℕ, ◌+◌, ◌%◌, ◌^◌, ◌≡◌, ◌↔◌, true, false, List, [], ◌∷◌, ok, err, all, length, arith, Bool-cases,
  inl, inr,
}
use strajer.Common.Texts.{Text}
use strajer.Protocol.Catalog.{
  invalid_warcraft_version, split_dots, is_component, count_components, validate_warcraft_version,
}

-- The components between the dots.
abbrev pub components : Text → List Text
components version = let (first, rest) = split_dots version in first ∷ rest

counted :
    (count : ℕ) (cs : List Text)
    → count % 2 ^ 8 ≡ count
    → all is_component cs ≡ true
    → count_components count cs ≡ ok ((count + length cs) % 2 ^ 8)
unfolding count_components
counted count [] small h = ground (arith, small)
counted count (c ∷ cs) small h = ground (arith, counted ((count + 1) % 2 ^ 8) cs (omega arith))

not_counted :
    (count : ℕ) (cs : List Text)
    → all is_component cs ≡ false
    → count_components count cs ≡ err invalid_warcraft_version
unfolding count_components
not_counted count [] h = absurd (cc h)
not_counted count (c ∷ cs) h = ground (arith, not_counted ((count + 1) % 2 ^ 8) cs)

-- In a release build a version is accepted exactly if all its components are non-empty strings of
-- digits and their number is 4 modulo 256, since an eight-bit counter counts them.
pub validate_warcraft_version_iff :
    (version : Text)
    → (validate_warcraft_version version ≡ ok tt)
      ↔ ((all is_component (components version) ≡ true) × (length (components version) % 256 ≡ 4))
unfolding validate_warcraft_version
validate_warcraft_version_iff version = elim (Bool-cases (all is_component (components version))) [
  | inl good ↦ ground (arith, counted 0 (components version) (omega arith) good, good)
  | inr bad ↦ ground (arith, not_counted 0 (components version) bad, bad)
]
