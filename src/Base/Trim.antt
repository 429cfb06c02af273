-- ===== src/Base/Trim.antt =====
-- Trimming and upper case, done twice.
use mathlib.Core.Path.{◌≡◌, refl, sym, ap, ◌∙◌}
use mathlib.Core.Bool.{Bool, true, not, ◌&&◌}
use mathlib.Core.List.{[], ◌∷◌, reverse, reverse_aux}
use native.Mathlib.Omega.{arith}
use Prim.Native.Nat.{ℕ}
use punchline.Base.Tests.{◌==◌}
use punchline.Base.Lists.{All}
use punchline.Base.Runes.{Text, is_space, trim_left, trim_space, upper_rune, to_upper}

abbrev pub head_black : Text → Bool
head_black [] = true
head_black (r ∷ s) = not (is_space r)

abbrev pub last_black : Text → Bool
last_black [] = true
last_black (r ∷ []) = not (is_space r)
last_black (r ∷ q ∷ s) = last_black (q ∷ s)

reverse_aux-reverse_aux : (s t : Text) → reverse_aux (reverse_aux s t) [] ≡ reverse_aux t s
reverse_aux-reverse_aux [] t = refl
reverse_aux-reverse_aux (r ∷ s) t = reverse_aux-reverse_aux s (r ∷ t)

head_black-reverse_aux :
    (r : ℕ) (s t : Text) → head_black (reverse_aux s (r ∷ t)) ≡ last_black (r ∷ s)
head_black-reverse_aux r [] t = refl
head_black-reverse_aux r (q ∷ s) t = head_black-reverse_aux q s (r ∷ t)

head_black-reverse : (s : Text) → head_black (reverse s) ≡ last_black s
head_black-reverse [] = refl
head_black-reverse (r ∷ s) = head_black-reverse_aux r s []

last_black-reverse : (s : Text) → last_black (reverse s) ≡ head_black s
last_black-reverse s =
    sym (head_black-reverse (reverse s)) ∙ ap head_black (reverse_aux-reverse_aux s [])

head_black-trim_left : (s : Text) → head_black (trim_left s) ≡ true
unfolding trim_left
head_black-trim_left [] = refl
head_black-trim_left (r ∷ s) = ground (arith, head_black-trim_left s)

last_black-trim_left : (s : Text) → last_black s ≡ true → last_black (trim_left s) ≡ true
unfolding trim_left
last_black-trim_left [] h = h
last_black-trim_left (r ∷ []) h = ground (arith, h)
last_black-trim_left (r ∷ q ∷ s) h = ground (arith, last_black-trim_left (q ∷ s) h, h)

trim_left-black : (s : Text) → head_black s ≡ true → trim_left s ≡ s
unfolding trim_left
trim_left-black [] h = refl
trim_left-black (r ∷ s) h = ground (arith, h)

pub trim_space-black : (s : Text) → head_black s ≡ true → last_black s ≡ true → trim_space s ≡ s
unfolding trim_space
trim_space-black s h k =
    ap (λ t. reverse (trim_left (reverse t))) (trim_left-black s h)
    ∙ ap reverse (trim_left-black (reverse s) (head_black-reverse s ∙ k))
    ∙ reverse_aux-reverse_aux s []

-- What is trimmed has nothing to trim.
pub trim_space-trim_space : (s : Text) → trim_space (trim_space s) ≡ trim_space s
unfolding trim_space
trim_space-trim_space s =
    let u = trim_left s in
    let v = trim_left (reverse u) in
    trim_space-black (reverse v)
      (head_black-reverse v
        ∙ last_black-trim_left (reverse u) (last_black-reverse u ∙ head_black-trim_left s))
      (last_black-reverse v ∙ head_black-trim_left (reverse u))

upper_rune-upper_rune : (r : ℕ) → upper_rune (upper_rune r) ≡ upper_rune r
unfolding upper_rune
upper_rune-upper_rune r = ground arith

is_space-upper_rune : (r : ℕ) → is_space (upper_rune r) ≡ is_space r
unfolding upper_rune is_space
is_space-upper_rune r = ground arith

to_upper-to_upper : (s : Text) → to_upper (to_upper s) ≡ to_upper s
unfolding to_upper
to_upper-to_upper [] = refl
to_upper-to_upper (r ∷ s) = ground (arith, upper_rune-upper_rune r, to_upper-to_upper s)

trim_left-to_upper : (s : Text) → trim_left (to_upper s) ≡ to_upper (trim_left s)
unfolding to_upper trim_left
trim_left-to_upper [] = refl
trim_left-to_upper (r ∷ s) = ground (arith, is_space-upper_rune r, trim_left-to_upper s)

reverse_aux-to_upper :
    (s t : Text) → reverse_aux (to_upper s) (to_upper t) ≡ to_upper (reverse_aux s t)
unfolding to_upper
reverse_aux-to_upper [] t = refl
reverse_aux-to_upper (r ∷ s) t = reverse_aux-to_upper s (r ∷ t)

trim_space-to_upper : (s : Text) → trim_space (to_upper s) ≡ to_upper (trim_space s)
unfolding trim_space to_upper
trim_space-to_upper s =
    ap (λ t. reverse (trim_left (reverse t))) (trim_left-to_upper s)
    ∙ ap (λ t. reverse (trim_left t)) (reverse_aux-to_upper (trim_left s) [])
    ∙ ap reverse (trim_left-to_upper (reverse (trim_left s)))
    ∙ reverse_aux-to_upper (trim_left (reverse (trim_left s))) []

-- A text in upper case without blanks around it is left as it is.
pub to_upper-trim_space-to_upper :
    (s : Text) → to_upper (trim_space (to_upper (trim_space s))) ≡ to_upper (trim_space s)
to_upper-trim_space-to_upper s =
    ap to_upper (trim_space-to_upper (trim_space s))
    ∙ to_upper-to_upper (trim_space (trim_space s))
    ∙ ap to_upper (trim_space-trim_space s)

-- Neither a blank nor a small letter.
unfoldable pub is_plain : ℕ → Bool
is_plain r = not (is_space r) && upper_rune r == r

last_black-plain : (s : Text) → All (λ r. is_plain r ≡ true) s → last_black s ≡ true
unfolding is_plain
last_black-plain [] h = refl
last_black-plain (r ∷ []) h = ground (arith, h)
last_black-plain (r ∷ q ∷ s) h = last_black-plain (q ∷ s) h.1

head_black-plain : (s : Text) → All (λ r. is_plain r ≡ true) s → head_black s ≡ true
unfolding is_plain
head_black-plain [] h = refl
head_black-plain (r ∷ s) h = ground (arith, h)

to_upper-plain : (s : Text) → All (λ r. is_plain r ≡ true) s → to_upper s ≡ s
unfolding is_plain to_upper
to_upper-plain [] h = refl
to_upper-plain (r ∷ s) h = ground (arith, h.0, to_upper-plain s h.1)

pub to_upper-trim_space-plain :
    (s : Text) → All (λ r. is_plain r ≡ true) s → to_upper (trim_space s) ≡ s
to_upper-trim_space-plain s h =
    ap to_upper (trim_space-black s (head_black-plain s h) (last_black-plain s h))
    ∙ to_upper-plain s h
