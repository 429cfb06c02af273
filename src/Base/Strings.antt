-- ===== src/Base/Strings.antt =====
-- What the code uses of package strings besides trimming: prefixes, suffixes and splitting.
use mathlib.Core.Bool.{Bool, true, false}
use mathlib.Core.List.{List, [], ◌∷◌, reverse}
use mathlib.Core.Option.{Option, none, some}
use Prim.Native.Nat.{ℕ}
use punchline.Base.Tests.{if◌then◌else◌, ◌==◌}
use punchline.Base.Runes.{Text}

-- The rest of a text after a prefix.
unfoldable pub after_prefix : Text → Text → Option Text
after_prefix [] s = some s
after_prefix (p ∷ ps) [] = none
after_prefix (p ∷ ps) (r ∷ s) = let rest = after_prefix ps s in if p == r then rest else none

abbrev is_some : Option Text → Bool
is_some none = false
is_some (some _) = true

abbrev text_or : Text → Option Text → Text
text_or s none = s
text_or s (some t) = t

-- `strings.HasPrefix(s, prefix)`, with the prefix first.
unfoldable pub has_prefix : Text → Text → Bool
unfolding after_prefix
has_prefix prefix s = is_some (after_prefix prefix s)

-- `strings.HasSuffix(s, suffix)`, with the suffix first.
unfoldable pub has_suffix : Text → Text → Bool
unfolding has_prefix
has_suffix suffix s = has_prefix (reverse suffix) (reverse s)

-- `strings.TrimPrefix(s, prefix)`, with the prefix first.
unfoldable pub trim_prefix : Text → Text → Text
unfolding after_prefix
trim_prefix prefix s = text_or s (after_prefix prefix s)

unfoldable pub trim_left_rune : ℕ → Text → Text
trim_left_rune c [] = []
trim_left_rune c (r ∷ s) = if r == c then trim_left_rune c s else r ∷ s

-- `strings.TrimRight` with a cut set of one rune.
unfoldable pub trim_right_rune : ℕ → Text → Text
unfolding trim_left_rune
trim_right_rune c s = reverse (trim_left_rune c (reverse s))

-- `strings.Trim` with a cut set of one rune.
unfoldable pub trim_rune : ℕ → Text → Text
unfolding trim_left_rune trim_right_rune
trim_rune c s = trim_right_rune c (trim_left_rune c s)

abbrev push_first : ℕ → List Text → List Text
push_first r [] = (r ∷ []) ∷ []
push_first r (part ∷ parts) = (r ∷ part) ∷ parts

-- `strings.Split` at one rune.
unfoldable pub split_at : ℕ → Text → List Text
split_at c [] = [] ∷ []
split_at c (r ∷ s) = let rest = split_at c s in if r == c then [] ∷ rest else push_first r rest
