-- ===== src/Daily/Codes.antt =====
-- The codes and the ids that the daily service makes.
use punchline.Base.{
  ℕ, ◌+◌, ◌%◌, ◌<◌, ◌≡◌, refl, ◌∙◌, true, List, [], ◌∷◌, ◌++◌, Text, arith, All, length, get_elem?,
  zero, suc, to_lower, to_upper,
}
use punchline.Base.Uuids.{valid_uuid, valid_from, hex_bytes, valid_from-hex_bytes}
use punchline.Daily.{
  group_code_alphabet, contains_rune, code_runes, normalize_code, rune_or_zero, code_of_bytes,
  uuid_of_bytes,
}

get_elem-All :
    (P : ℕ → Type 0) (s : Text) (i : ℕ) → All P s → i < length s → P (rune_or_zero (get_elem? s i))
unfolding rune_or_zero
get_elem-All P [] i h l = absurd (omega arith)
get_elem-All P (r ∷ s) zero h l = h.0
get_elem-All P (r ∷ s) (suc i) h l = get_elem-All P s i h.1 (omega arith)

-- A rune that a code keeps, in capitals or not.
record IsCodeRune (r : ℕ) : Type 0 where
  kept : contains_rune group_code_alphabet r ≡ true
  capital : to_upper (r ∷ []) ≡ r ∷ []
  again : to_upper (to_lower (r ∷ [])) ≡ r ∷ []

rune-IsCodeRune : (b : ℕ) → IsCodeRune (rune_or_zero (get_elem? group_code_alphabet (b % 31)))
unfolding contains_rune to_upper to_lower
rune-IsCodeRune b =
    get_elem-All IsCodeRune group_code_alphabet (b % 31) (ground arith) (omega arith)

-- A code that the service makes is its own normal form, and that of itself typed in small letters.
pub normalize_code-code_of_bytes :
    (bs : List ℕ)
    → (normalize_code (code_of_bytes bs) ≡ code_of_bytes bs)
      × (normalize_code (to_lower (code_of_bytes bs)) ≡ code_of_bytes bs)
unfolding normalize_code code_runes code_of_bytes to_upper to_lower
normalize_code-code_of_bytes [] = (refl, refl)
normalize_code-code_of_bytes (b ∷ bs) =
    let c = rune-IsCodeRune b in
    let h = normalize_code-code_of_bytes bs in
    (ground (arith, c.kept, c.capital, h.0), ground (arith, c.kept, c.again, h.1))

-- Every id that is made of sixteen random bytes passes the check of ids.
pub valid_uuid-uuid_of_bytes : (bs : List ℕ) → length bs ≡ 16 → valid_uuid (uuid_of_bytes bs) ≡ true
unfolding valid_uuid uuid_of_bytes hex_bytes valid_from
valid_uuid-uuid_of_bytes (a ∷ b ∷ c ∷ d ∷ e ∷ f ∷ g ∷ h ∷ i ∷ j ∷ k ∷ l ∷ m ∷ n ∷ o ∷ p ∷ []) q =
    let node = hex_bytes (k ∷ l ∷ m ∷ n ∷ o ∷ p ∷ []) in
    let variant = hex_bytes ((i % 64 + 0x80) ∷ j ∷ []) ++ (0x2d ∷ node) in
    let version = hex_bytes ((g % 16 + 0x40) ∷ h ∷ []) ++ (0x2d ∷ variant) in
    let middle = hex_bytes (e ∷ f ∷ []) ++ (0x2d ∷ version) in
    valid_from-hex_bytes 0 (a ∷ b ∷ c ∷ d ∷ []) (0x2d ∷ middle) (ground arith)
    ∙ valid_from-hex_bytes 9 (e ∷ f ∷ []) (0x2d ∷ version) (ground arith)
    ∙ valid_from-hex_bytes 14 ((g % 16 + 0x40) ∷ h ∷ []) (0x2d ∷ variant) (ground arith)
    ∙ valid_from-hex_bytes 19 ((i % 64 + 0x80) ∷ j ∷ []) (0x2d ∷ node) (ground arith)
    ∙ valid_from-hex_bytes 24 (k ∷ l ∷ m ∷ n ∷ o ∷ p ∷ []) [] (ground arith)
valid_uuid-uuid_of_bytes _ q = absurd (omega arith)
