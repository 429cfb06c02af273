-- ===== src/Daily.antt =====
-- The daily puzzle (backend/internal/daily/service.go and promote.go): what is not SQL. The digest of
-- crypto/sha256, the tables of package unicode and the random bytes are parameters.
pub mod Codes
pub mod Names
pub mod Streaks
use punchline.Base.{
  ℕ, ◌+◌, ◌%◌, ◌==◌, ◌&&◌, ◌||◌, not, Bool, true, false, List, [], ◌∷◌, ◌++◌, Option, none, some,
  if◌then◌else◌, ltb, length, get_elem?, Text, codes, same, is_space, is_control, trim_space,
  to_upper,
}
use punchline.Base.Uuids.{hex_bytes}
use punchline.Cards.Deck.{PromptCard, Deck, deck_for, tier_family}

-- `s.prompts`.
abbrev pub Prompts : Type 0
Prompts = List PromptCard

-- The loop of `SetDeck` over prompts of one length.
unfoldable pub same_prompts : Prompts → Prompts → Bool
same_prompts [] _ = true
same_prompts (_ ∷ _) [] = true
same_prompts (p ∷ ps) (q ∷ qs) =
    let rest = same_prompts ps qs in
    if not (same p.id q.id) || not (same p.text q.text) then false else rest

-- `SetDeck`.
unfoldable pub set_prompts : Deck → Prompts → Prompts × Bool
unfolding deck_for same_prompts
set_prompts deck old =
    let prompts = (deck_for deck tier_family).prompts in
    if length prompts == 0
    then (old, false)
    else if length prompts == length old && same_prompts prompts old
    then (old, false)
    else (prompts, true)

-- `promptFor`: `digest` gives the first eight bytes of the hash, as a big-endian number. No prompt
-- is the division by zero.
unfoldable pub prompt_for : (Text → ℕ) → Prompts → Text → Text → Option PromptCard
prompt_for digest prompts group_id date =
    if length prompts == 0
    then none
    else get_elem? prompts (digest (group_id ++ codes ":" ++ date) % length prompts)

abbrev push_first : ℕ → List Text → List Text
push_first r [] = (r ∷ []) ∷ []
push_first r (field ∷ fields) = (r ∷ field) ∷ fields

-- `strings.Fields` and `strings.Join(…, " ")`: the blanks between words are single spaces. The first
-- argument tells whether a word was written before.
unfoldable pub join_fields : Bool → Bool → Text → Text
unfolding is_space
join_fields wrote pending [] = []
join_fields wrote pending (r ∷ s) =
    let blank = join_fields wrote true s in
    let word = join_fields true false s in
    if is_space r then blank else if wrote && pending then 0x20 ∷ r ∷ word else r ∷ word

-- `hasUnsafeControl`.
unfoldable pub has_unsafe_control : Text → Bool
unfolding is_control
has_unsafe_control [] = false
has_unsafe_control (r ∷ s) =
    let rest = has_unsafe_control s in
    if is_control r && not (r == 0x0a) && not (r == 0x09) then true else rest

pub data NameError : Type 0 where
  unsafe empty too_short too_long : NameError

pub data ValidName : Type 0 where
  valid : Text → ValidName
  invalid : NameError → ValidName

unfoldable pub checked_name : ℕ → ℕ → Text → ValidName
unfolding has_unsafe_control
checked_name min max name =
    if has_unsafe_control name
    then invalid unsafe
    else if ltb (length name) min
    then (if min == 1 then invalid empty else invalid too_short)
    else if ltb max (length name)
    then invalid too_long
    else valid name

-- `validateName`, with the errors for their texts.
unfoldable pub validate_name : ℕ → ℕ → Text → ValidName
unfolding checked_name join_fields
validate_name min max value = checked_name min max (join_fields false false (trim_space value))

abbrev pub group_code_alphabet : Text
group_code_alphabet = codes "23456789ABCDEFGHJKMNPQRSTUVWXYZ"

-- `strings.ContainsRune`.
unfoldable pub contains_rune : Text → ℕ → Bool
contains_rune [] r = false
contains_rune (q ∷ s) r = let rest = contains_rune s r in if q == r then true else rest

unfoldable pub code_runes : Text → Text
unfolding contains_rune
code_runes [] = []
code_runes (r ∷ s) =
    let rest = code_runes s in if contains_rune group_code_alphabet r then r ∷ rest else rest

-- `normalizeCode`.
unfoldable pub normalize_code : Text → Text
unfolding code_runes to_upper
normalize_code value = code_runes (to_upper value)

unfoldable pub rune_or_zero : Option ℕ → ℕ
rune_or_zero none = 0
rune_or_zero (some r) = r

-- `randomCode`, of the random bytes.
unfoldable pub code_of_bytes : List ℕ → Text
unfolding rune_or_zero
code_of_bytes [] = []
code_of_bytes (b ∷ bs) =
    rune_or_zero (get_elem? group_code_alphabet (b % length group_code_alphabet)) ∷ code_of_bytes bs

-- The masks on the bytes 6 and 8 of `randomUUID`, and its dashes.
unfoldable pub uuid_of_bytes : List ℕ → Text
unfolding hex_bytes
uuid_of_bytes (a ∷ b ∷ c ∷ d ∷ e ∷ f ∷ g ∷ h ∷ i ∷ j ∷ k ∷ l ∷ m ∷ n ∷ o ∷ p ∷ []) =
    hex_bytes (a ∷ b ∷ c ∷ d ∷ [])
    ++ (0x2d
        ∷ (hex_bytes (e ∷ f ∷ [])
            ++ (0x2d
                ∷ (hex_bytes ((g % 16 + 0x40) ∷ h ∷ [])
                    ++ (0x2d
                        ∷ (hex_bytes ((i % 64 + 0x80) ∷ j ∷ [])
                            ++ (0x2d ∷ hex_bytes (k ∷ l ∷ m ∷ n ∷ o ∷ p ∷ []))))))))
uuid_of_bytes _ = []

-- The loop of `groupStreak` after the latest of the dates, which are days in the group's timezone,
-- newest first.
unfoldable pub streak_after : ℕ → List ℕ → ℕ
streak_after last [] = 0
streak_after last (day ∷ days) =
    let rest = streak_after day days in if day + 1 == last then 1 + rest else 0

-- `groupStreak`, of the day it is and of the days that the database lists.
unfoldable pub group_streak : ℕ → List ℕ → ℕ
unfolding streak_after
group_streak today [] = 0
group_streak today (day ∷ days) = if ltb (day + 1) today then 0 else 1 + streak_after day days

-- What the code uses of package unicode: whether a rune is a letter or a digit, and its lower case.
pub record UnicodePackage : Type 0 where
  pub is_word : ℕ → Bool
  pub lower : ℕ → ℕ

module _ (unicode : UnicodePackage) where
  -- The loop of `NormalizeCandidateText`; the first argument is `lastSpace`.
  unfoldable pub candidate_runes : Bool → Text → Text
  unfolding is_space
  candidate_runes last_space [] = []
  candidate_runes last_space (r ∷ s) =
      let q = unicode.lower r in
      let word = candidate_runes false s in
      let blank = candidate_runes true s in
      let dropped = candidate_runes last_space s in
      if unicode.is_word q
      then q ∷ word
      else if is_space q
      then (if last_space then dropped else 0x20 ∷ blank)
      else dropped

  unfoldable pub normalize_candidate_text : Text → Text
  unfolding candidate_runes trim_space
  normalize_candidate_text value = trim_space (candidate_runes true value)
