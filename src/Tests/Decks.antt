-- ===== src/Tests/Decks.antt =====
-- A deck that the loaders accept.
use punchline.Base.{
  ℕ, zero, suc, ◌+◌, ◌≡◌, refl, List, [], ◌∷◌, codes, text_discrete, to_lower, trim_space,
}
use punchline.Cards.Deck.{PromptCard, AnswerCard, Deck, tier_family}
use punchline.Cards.Validate.{
  ok, validate_deck, validate_prompts, validate_answers, validate_prompt, validate_answer,
  normalize_seed_tier, seen,
}
use punchline.Cards.Valid.{IsValid, validate_deck-IsValid}

-- Cards whose ids are the runes from 1000 on.
abbrev prompts_to : ℕ → List PromptCard
prompts_to zero = []
prompts_to (suc n) =
    record { id = (1000 + n) ∷ []; text = codes "q"; tier = tier_family; uuid = [] } ∷ prompts_to n

abbrev answers_to : ℕ → List AnswerCard
answers_to zero = []
answers_to (suc n) =
    record { id = (1000 + n) ∷ []; text = codes "a"; tier = tier_family; uuid = [] } ∷ answers_to n

abbrev pub big_deck : Deck
big_deck = record { prompts = prompts_to 90; answers = answers_to 180 }

pub big_deck_accepted : validate_deck big_deck ≡ ok big_deck
unfolding validate_deck validate_prompts validate_answers validate_prompt validate_answer
    normalize_seed_tier seen text_discrete to_lower trim_space
big_deck_accepted = refl

validate_deck-IsValid_example : IsValid big_deck
validate_deck-IsValid_example = validate_deck-IsValid big_deck big_deck big_deck_accepted
