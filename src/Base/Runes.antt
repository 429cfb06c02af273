-- ===== src/Base/Runes.antt =====
-- Go strings as lists of runes, and what the code uses of `strings` and `unicode`.
use Prim.Native.Nat.{ℕ, ◌+◌, ◌-◌}
use Prim.Native.Char.{code}
use Prim.Native.String.{String}
use mathlib.Core.Path.{◌≡◌, refl, ap}
use mathlib.Core.Bool.{Bool, ◌&&◌, ◌||◌}
use mathlib.Core.List.{List, [], ◌∷◌, reverse}
use native.Mathlib.Decide.{ℕ_discrete}
use punchline.Base.Tests.{leb, ◌==◌, holds, if◌then◌else◌}

-- The runes of a Go string.
abbrev pub Text : Type 0
Text = List ℕ

abbrev tail_of : Text → Text
tail_of [] = []
tail_of (_ ∷ s) = s

abbrev head_or : Text → ℕ → ℕ
head_or [] d = d
head_or (r ∷ _) d = r

both : {r q : ℕ} {s t : Text} → Dec (r ≡ q) → Dec (s ≡ t) → Dec (r ∷ s ≡ q ∷ t)
both (yes h) (yes k) = yes (λ i. h i ∷ k i)
both (yes h) (no k) = no (λ e. k (ap tail_of e))
both (no h) k = no (λ e. h (ap (λ x. head_or x 0) e))

unfoldable pub text_discrete : Discrete Text
unfolding ℕ_discrete both
text_discrete [] [] = yes refl
text_discrete [] (r ∷ t) = no (λ e. cc)
text_discrete (r ∷ s) [] = no (λ e. cc)
text_discrete (r ∷ s) (q ∷ t) = both (ℕ_discrete r q) (text_discrete s t)

-- A literal.
abbrev pub codes : String → Text
codes String.[] = []
codes (String.◌∷◌ c s) = code c ∷ codes s

-- `a == b` on strings.
abbrev pub same : Text → Text → Bool
same a b = holds (text_discrete a b)

-- `unicode.IsControl`: the category Cc.
unfoldable pub is_control : ℕ → Bool
is_control r = leb r 0x1f || (leb 0x7f r && leb r 0x9f)

-- `unicode.IsSpace`.
unfoldable pub is_space : ℕ → Bool
is_space r =
    (leb 0x09 r && leb r 0x0d)
    || r == 0x20
    || r == 0x85
    || r == 0xa0
    || r == 0x1680
    || (leb 0x2000 r && leb r 0x200a)
    || r == 0x2028
    || r == 0x2029
    || r == 0x202f
    || r == 0x205f
    || r == 0x3000

unfoldable pub trim_left : Text → Text
trim_left [] = []
trim_left (r ∷ s) = if is_space r then trim_left s else r ∷ s

-- `strings.TrimSpace`.
unfoldable pub trim_space : Text → Text
unfolding trim_left is_space
trim_space s = reverse (trim_left (reverse (trim_left s)))

-- `unicode.ToLower` as far as it reaches an ASCII letter: A to Z, the dotted İ and the Kelvin
-- sign. It maps every other rune to itself or to a rune outside ASCII, which is left alone here.
unfoldable pub lower_rune : ℕ → ℕ
lower_rune r =
    if leb 0x41 r && leb r 0x5a
    then r + 0x20
    else if r == 0x130
    then 0x69
    else if r == 0x212a
    then 0x6b
    else r

unfoldable pub to_lower : Text → Text
unfolding lower_rune
to_lower [] = []
to_lower (r ∷ s) = lower_rune r ∷ to_lower s

-- `unicode.ToUpper` as far as it reaches an ASCII letter: a to z, the dotless ı and the long s.
-- Letters outside ASCII that stay outside are left alone: room codes are ASCII.
unfoldable pub upper_rune : ℕ → ℕ
upper_rune r =
    if leb 0x61 r && leb r 0x7a
    then r - 0x20
    else if r == 0x131
    then 0x49
    else if r == 0x17f
    then 0x53
    else r

unfoldable pub to_upper : Text → Text
unfolding upper_rune
to_upper [] = []
to_upper (r ∷ s) = upper_rune r ∷ to_upper s
