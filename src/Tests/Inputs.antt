-- ===== src/Tests/Inputs.antt =====
-- A random source and a small deck.
use punchline.Base.{ℕ, [], ◌∷◌, Text, codes, arith}
use punchline.Cards.Deck.{PromptCard, AnswerCard, Deck, tier_family, tier_party}
use punchline.Room.World.{World, hex, new_id}
use punchline.Room.Seats.{Unrepeated}

-- Each draw gives its own number.
abbrev pub counting : World
counting = record { random_bytes = λ k n. k ∷ []; random_below = λ k n. 0; swaps = λ k n. [] }

pub counting-Unrepeated : Unrepeated counting
unfolding new_id hex
counting-Unrepeated i j h = ground arith

abbrev pub prompt_card : ℕ → Text → PromptCard
prompt_card n tier = record { id = 112 ∷ n ∷ []; text = codes "Why?"; tier = tier; uuid = [] }

abbrev pub answer_card : ℕ → Text → AnswerCard
answer_card n tier = record { id = 97 ∷ n ∷ []; text = codes "A duck"; tier = tier; uuid = [] }

abbrev pub small_deck : Deck
small_deck = record {
  prompts = prompt_card 1 tier_family ∷ prompt_card 2 tier_party ∷ [];
  answers = answer_card 1 tier_family ∷ answer_card 2 tier_party ∷ answer_card 3 tier_party ∷ [];
}
