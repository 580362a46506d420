-- ===== src/Common/Utf8.antt =====
-- The encoding of Rust's `str`: `str::as_bytes` and `std::str::from_utf8`.
use strajer.Common.Tests.{ltb, leb, ◌==◌, if◌then◌else◌}
use strajer.Common.Texts.{Text, len_utf8, str_len, contains_nul}
use strajer.Common.Bytes.{Bytes}
use strajer.Common.Lists.{All, any, length, length-append}
use Prim.Native.Nat.{ℕ, ◌+◌, ◌-◌, ◌*◌, ◌/◌, ◌%◌, ◌<◌, ◌≤◌}
use mathlib.Core.Path.{◌≡◌, refl, ap, ◌∙◌}
use mathlib.Core.Logic.{◌⊎◌}
use mathlib.Core.Bool.{Bool, false, not, ◌&&◌, ◌||◌}
use mathlib.Core.Option.{Option, none, some, map}
use mathlib.Core.List.{[], ◌∷◌, ◌++◌}
use native.Mathlib.Omega.{arith}

-- The 1 to 4 bytes of a character.
abbrev pub encode_utf8 : ℕ → Bytes
encode_utf8 c =
    if ltb c 0x80
    then c ∷ []
    else if ltb c 0x800
    then (0xC0 + c / 64) ∷ (0x80 + c % 64) ∷ []
    else if ltb c 0x1_0000
    then (0xE0 + c / 4096) ∷ (0x80 + (c / 64) % 64) ∷ (0x80 + c % 64) ∷ []
    else (0xF0 + c / 262144)
      ∷ (0x80 + (c / 4096) % 64)
      ∷ (0x80 + (c / 64) % 64)
      ∷ (0x80 + c % 64)
      ∷ []

abbrev pub as_bytes : Text → Bytes
as_bytes [] = []
as_bytes (c ∷ cs) = encode_utf8 c ++ as_bytes cs

-- Between two characters, or within one: the bytes that it still needs, its bits so far, and the
-- least character of its length.
pub data Decoding : Type 0 where
  between : Decoding
  within : (needed bits least : ℕ) → Decoding

-- A byte that ends a character, or one that does not.
pub data Step : Type 0 where
  ends : (c : ℕ) → Step
  goes : Decoding → Step

-- A Unicode scalar value.
abbrev pub is_scalar : ℕ → Bool
is_scalar c = ltb c 0xD800 || (leb 0xE000 c && leb c 0x10_FFFF)

abbrev pub first_byte : ℕ → Option Step
first_byte b =
    if ltb b 0x80
    then some (ends b)
    else if ltb b 0xC2
    then none
    else if ltb b 0xE0
    then some (goes (within 1 (b - 0xC0) 0x80))
    else if ltb b 0xF0
    then some (goes (within 2 (b - 0xE0) 0x800))
    else if ltb b 0xF5
    then some (goes (within 3 (b - 0xF0) 0x1_0000))
    else none

abbrev pub next_byte : ℕ → ℕ → ℕ → ℕ → Option Step
next_byte needed bits least b =
    if not (leb 0x80 b && leb b 0xBF)
    then none
    else if ltb 1 needed
    then some (goes (within (needed - 1) (bits * 64 + (b - 0x80)) least))
    else if leb least (bits * 64 + (b - 0x80)) && is_scalar (bits * 64 + (b - 0x80))
    then some (ends (bits * 64 + (b - 0x80)))
    else none

abbrev pub step_utf8 : Decoding → ℕ → Option Step
step_utf8 between b = first_byte b
step_utf8 (within needed bits least) b = next_byte needed bits least b

abbrev pub follow : Option Step → (Decoding → Option Text) → Option Text
follow none k = none
follow (some (ends c)) k = map (◌∷◌ c) (k between)
follow (some (goes s)) k = k s

unfoldable pub decode_utf8 : Decoding → Bytes → Option Text
decode_utf8 between [] = some []
decode_utf8 (within needed bits least) [] = none
decode_utf8 s (b ∷ bs) = follow (step_utf8 s b) λ t. decode_utf8 t bs

-- `std::str::from_utf8`
unfoldable pub from_utf8 : Bytes → Option Text
unfolding decode_utf8
from_utf8 bytes = decode_utf8 between bytes

abbrev pub IsScalar : ℕ → Type 0
IsScalar c = (c < 0xD800) ⊎ ((0xE000 ≤ c) × (c ≤ 0x10_FFFF))

decode_utf8-encode_utf8 :
    (c : ℕ) (bs : Bytes)
    → IsScalar c
    → decode_utf8 between (encode_utf8 c ++ bs) ≡ map (◌∷◌ c) (decode_utf8 between bs)
unfolding decode_utf8
decode_utf8-encode_utf8 c bs h = ground arith

-- Every string is read back from its bytes.
pub from_utf8-as_bytes : (text : Text) → All IsScalar text → from_utf8 (as_bytes text) ≡ some text
unfolding from_utf8 decode_utf8
from_utf8-as_bytes [] h = refl
from_utf8-as_bytes (c ∷ cs) h =
    decode_utf8-encode_utf8 c (as_bytes cs) h.0 ∙ ap (map (◌∷◌ c)) (from_utf8-as_bytes cs h.1)

length-encode_utf8 : (c : ℕ) → length (encode_utf8 c) ≡ len_utf8 c
length-encode_utf8 c = ground arith

pub length-as_bytes : (text : Text) → length (as_bytes text) ≡ str_len text
length-as_bytes [] = refl
length-as_bytes (c ∷ cs) =
    omega
      (arith, length-append (encode_utf8 c) (as_bytes cs), length-encode_utf8 c, length-as_bytes cs)

encode_utf8-without_nul : (c : ℕ) → (c == 0) ≡ false → any (λ b. b == 0) (encode_utf8 c) ≡ false
encode_utf8-without_nul c h = ground arith

pub any-append :
    (p : ℕ → Bool) (xs ys : Bytes) → any p xs ≡ false → any p ys ≡ false → any p (xs ++ ys) ≡ false
any-append p [] ys h k = k
any-append p (x ∷ xs) ys h k = ground (arith, any-append p xs ys)

pub as_bytes-without_nul :
    (text : Text) → contains_nul text ≡ false → any (λ b. b == 0) (as_bytes text) ≡ false
as_bytes-without_nul [] h = refl
as_bytes-without_nul (c ∷ cs) h =
    any-append (λ b. b == 0) (encode_utf8 c) (as_bytes cs)
      (encode_utf8-without_nul c (ground arith)) (as_bytes-without_nul cs (ground arith))
