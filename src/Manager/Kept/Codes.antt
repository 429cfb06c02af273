-- ===== src/Manager/Kept/Codes.antt =====
-- The normal form of the codes of rooms.
use punchline.Base.{
  ℕ, zero, suc, ◌+◌, ◌≡◌, refl, true, [], ◌∷◌, Text, arith, is_space, upper_rune, All, get_elem?,
}
use punchline.Base.Trim.{is_plain, to_upper-trim_space-to_upper, to_upper-trim_space-plain}
use punchline.Room.World.{World}
use punchline.Room.Restore.{normalize_room_code}
use punchline.Manager.Rooms.{code_alphabet, letter, random_code}

pub normalize-normalize :
    (code : Text) → normalize_room_code (normalize_room_code code) ≡ normalize_room_code code
unfolding normalize_room_code
normalize-normalize code = to_upper-trim_space-to_upper code

abbrev IsPlain : ℕ → Type 0
IsPlain r = is_plain r ≡ true

alphabet-IsPlain : All IsPlain code_alphabet
unfolding is_plain is_space upper_rune
alphabet-IsPlain = ground arith

letter-IsPlain : (s : Text) (k : ℕ) → All IsPlain s → is_plain (letter (get_elem? s k)) ≡ true
unfolding letter is_plain is_space upper_rune
letter-IsPlain [] k h = refl
letter-IsPlain (r ∷ s) zero h = h.0
letter-IsPlain (r ∷ s) (suc k) h = letter-IsPlain s k h.1

random_code-IsPlain : (w : World) (seed n : ℕ) → All IsPlain (random_code w seed n)
unfolding random_code
random_code-IsPlain w seed zero = tt
random_code-IsPlain w seed (suc n) = (
  letter-IsPlain code_alphabet (w.random_below seed 32) alphabet-IsPlain,
  random_code-IsPlain w (seed + 1) n,
)

pub normalize-random_code :
    (w : World) (seed n : ℕ) → normalize_room_code (random_code w seed n) ≡ random_code w seed n
unfolding normalize_room_code
normalize-random_code w seed n =
    to_upper-trim_space-plain (random_code w seed n) (random_code-IsPlain w seed n)
