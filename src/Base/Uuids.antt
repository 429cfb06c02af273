-- ===== src/Base/Uuids.antt =====
-- UUIDs as texts: the check that the services daily and content share, and the digits.
use Prim.Native.Nat.{ℕ, ◌+◌, ◌/◌, ◌%◌, ◌<◌}
use mathlib.Core.Path.{◌≡◌, refl}
use mathlib.Core.Bool.{Bool, true, false, ◌&&◌, ◌||◌}
use mathlib.Core.List.{List, [], ◌∷◌, ◌++◌}
use native.Mathlib.Omega.{arith}
use punchline.Base.Tests.{ltb, leb, ◌==◌, if◌then◌else◌}
use punchline.Base.Lists.{length}
use punchline.Base.Runes.{Text}

unfoldable pub is_hex_digit : ℕ → Bool
is_hex_digit r =
    (leb 0x30 r && leb r 0x39) || (leb 0x61 r && leb r 0x66) || (leb 0x41 r && leb r 0x46)

abbrev is_dash_at : ℕ → Bool
is_dash_at i = i == 8 || i == 13 || i == 18 || i == 23

-- The loop of `validUUID` from an index on, with the four bytes that are looked at first.
unfoldable pub valid_from : ℕ → Text → Bool
unfolding is_hex_digit
valid_from i [] = true
valid_from i (r ∷ s) =
    let rest = valid_from (i + 1) s in (if is_dash_at i then r == 0x2d else is_hex_digit r) && rest

-- `validUUID`. A rune outside ASCII is no digit, so bytes and runes are the same where it holds.
unfoldable pub valid_uuid : Text → Bool
unfolding valid_from
valid_uuid value = length value == 36 && valid_from 0 value

abbrev pub hex_digit : ℕ → ℕ
hex_digit n = if ltb n 10 then 0x30 + n else 0x57 + n

-- `%02x` of a byte.
abbrev pub hex_byte : ℕ → Text
hex_byte b = hex_digit (b / 16 % 16) ∷ hex_digit (b % 16) ∷ []

unfoldable pub hex_bytes : List ℕ → Text
hex_bytes [] = []
hex_bytes (b ∷ bs) = hex_byte b ++ hex_bytes bs

hex_digit-is_hex_digit : (n : ℕ) → n < 16 → is_hex_digit (hex_digit n) ≡ true
unfolding is_hex_digit
hex_digit-is_hex_digit n h = ground arith

-- No index of a dash among those of the digits of some bytes.
abbrev pub NoDash : ℕ → List ℕ → Type 0
NoDash i [] = Unit {0}
NoDash i (b ∷ bs) = (is_dash_at i ≡ false) × (is_dash_at (i + 1) ≡ false) × NoDash (i + 1 + 1) bs

abbrev pub after : ℕ → List ℕ → ℕ
after i [] = i
after i (b ∷ bs) = after (i + 1 + 1) bs

pub valid_from-hex_bytes :
    (i : ℕ) (bs : List ℕ) (s : Text)
    → NoDash i bs
    → valid_from i (hex_bytes bs ++ s) ≡ valid_from (after i bs) s
unfolding valid_from hex_bytes
valid_from-hex_bytes i [] s h = refl
valid_from-hex_bytes i (b ∷ bs) s h = ground (
  arith,
  h.0,
  h.1,
  hex_digit-is_hex_digit (b / 16 % 16),
  hex_digit-is_hex_digit (b % 16),
  valid_from-hex_bytes (i + 1 + 1) bs s h.2,
)
