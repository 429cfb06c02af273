-- ===== src/Cards/Validate.antt =====
-- backend/internal/cards/deck.go: `validateDeck`, which both loaders run on what they read.
use punchline.Base.{
  ℕ, ◌+◌, Bool, true, false, ◌||◌, List, [], ◌∷◌, if◌then◌else◌, ltb, length, Text, same,
  trim_space, to_lower,
}
use punchline.Cards.Deck.{PromptCard, AnswerCard, Deck, tier_family, tier_party}

abbrev pub min_seed_prompts : ℕ
min_seed_prompts = 90

abbrev pub min_seed_answers : ℕ
min_seed_answers = 180

abbrev pub min_family_prompts : ℕ
min_family_prompts = 50

abbrev pub min_family_answers : ℕ
min_family_answers = 100

pub data DeckError : Type 0 where
  few_prompts few_answers few_family_prompts few_family_answers : ℕ → DeckError
  prompt_tier answer_tier prompt_duplicate answer_duplicate : Text → DeckError
  prompt_blank answer_blank : DeckError

pub data Checked {ℓ} (A : Type ℓ) : Type ℓ where
  ok : A → Checked A
  err : DeckError → Checked A

infixl 5 ◌>>=◌
abbrev pub ◌>>=◌ {ℓ κ} : {A : Type ℓ} {B : Type κ} → Checked A → (A → Checked B) → Checked B
ok a >>= f = f a
err e >>= f = err e

infixl 5 ◌>>◌
abbrev pub ◌>>◌ {ℓ} : {B : Type ℓ} → Checked (Unit {0}) → Checked B → Checked B
m >> k = m >>= λ _. k

-- An early return of the error when the test holds.
abbrev pub refuse_if : Bool → DeckError → Checked (Unit {0})
refuse_if true e = err e
refuse_if false e = ok tt

-- `normalizeSeedTier`, with the error that its caller wraps.
unfoldable pub normalize_seed_tier : Text → DeckError → Checked Text
normalize_seed_tier tier e =
    let t = to_lower (trim_space tier) in
    if same t [] || same t tier_party
    then ok tier_party
    else if same t tier_family
    then ok tier_family
    else err e

unfoldable pub seen : Text → List Text → Bool
seen id [] = false
seen id (j ∷ ids) = same id j || seen id ids

abbrev pub count_family : Text → ℕ → ℕ
count_family tier n = if same tier tier_family then n + 1 else n

-- One round of the loop of `validatePrompts`: the card as it is left in the slice.
unfoldable pub validate_prompt : List Text → PromptCard → Checked PromptCard
unfolding normalize_seed_tier seen
validate_prompt ids c = do
  let id = trim_space c.id
  let text = trim_space c.text
  tier ← normalize_seed_tier c.tier (prompt_tier id)
  refuse_if (same id [] || same text []) prompt_blank
  refuse_if (seen id ids) (prompt_duplicate id)
  ok (record { id = id; text = text; tier = tier; uuid = c.uuid })

unfoldable pub validate_answer : List Text → AnswerCard → Checked AnswerCard
unfolding normalize_seed_tier seen
validate_answer ids c = do
  let id = trim_space c.id
  let text = trim_space c.text
  tier ← normalize_seed_tier c.tier (answer_tier id)
  refuse_if (same id [] || same text []) answer_blank
  refuse_if (seen id ids) (answer_duplicate id)
  ok (record { id = id; text = text; tier = tier; uuid = c.uuid })

-- The loops: the cards as they are left, and the number of family cards.
unfoldable pub validate_prompts : List Text → ℕ → List PromptCard → Checked (List PromptCard × ℕ)
validate_prompts ids family [] = ok ([], family)
validate_prompts ids family (c ∷ cs) = do
  p ← validate_prompt ids c
  (ps, n) ← validate_prompts (p.id ∷ ids) (count_family p.tier family) cs
  ok (p ∷ ps, n)

unfoldable pub validate_answers : List Text → ℕ → List AnswerCard → Checked (List AnswerCard × ℕ)
validate_answers ids family [] = ok ([], family)
validate_answers ids family (c ∷ cs) = do
  a ← validate_answer ids c
  (as', n) ← validate_answers (a.id ∷ ids) (count_family a.tier family) cs
  ok (a ∷ as', n)

unfoldable pub validate_deck : Deck → Checked Deck
validate_deck d = do
  refuse_if (ltb (length d.prompts) min_seed_prompts) (few_prompts (length d.prompts))
  refuse_if (ltb (length d.answers) min_seed_answers) (few_answers (length d.answers))
  (ps, family_prompts) ← validate_prompts [] 0 d.prompts
  (as', family_answers) ← validate_answers [] 0 d.answers
  refuse_if (ltb family_prompts min_family_prompts) (few_family_prompts family_prompts)
  refuse_if (ltb family_answers min_family_answers) (few_family_answers family_answers)
  ok (record { prompts = ps; answers = as' })
