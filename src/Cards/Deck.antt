-- ===== src/Cards/Deck.antt =====
-- backend/internal/cards/deck.go: cards and decks, and the tiers that select from them.
use punchline.Base.{Bool, ◌&&◌, List, [], ◌∷◌, if◌then◌else◌, ltb, length, Text, codes, same}

abbrev pub tier_family : Text
tier_family = codes "family"

abbrev pub tier_party : Text
tier_party = codes "party"

pub record PromptCard : Type 0 where
  pub id : Text
  pub text : Text
  pub tier : Text
  pub uuid : Text

pub record AnswerCard : Type 0 where
  pub id : Text
  pub text : Text
  pub tier : Text
  pub uuid : Text

pub record Deck : Type 0 where
  pub prompts : List PromptCard
  pub answers : List AnswerCard

-- The two loops of `For`.
unfoldable pub family_prompts : List PromptCard → List PromptCard
family_prompts [] = []
family_prompts (p ∷ ps) =
    if same p.tier tier_family then p ∷ family_prompts ps else family_prompts ps

unfoldable pub family_answers : List AnswerCard → List AnswerCard
family_answers [] = []
family_answers (a ∷ as') =
    if same a.tier tier_family then a ∷ family_answers as' else family_answers as'

-- `Deck.For`.
unfoldable pub deck_for : Deck → Text → Deck
deck_for d tier =
    if same tier tier_family
    then record { prompts = family_prompts d.prompts; answers = family_answers d.answers }
    else d

unfoldable pub playable : Deck → Bool
playable d = ltb 0 (length d.prompts) && ltb 0 (length d.answers)
