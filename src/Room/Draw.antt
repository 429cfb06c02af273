-- ===== src/Room/Draw.antt =====
-- backend/internal/realtime/room.go: drawAnswers, drawPrompt, refillHand.
use punchline.Base.{
  ℕ, zero, suc, ◌+◌, ◌-◌, true, List, [], ◌∷◌, ◌++◌, Option, none, some, if◌then◌else◌, leb, length,
}
use punchline.Cards.Deck.{PromptCard, AnswerCard}
use punchline.Cards.Shuffle.{shuffled_prompts, shuffled_answers}
use punchline.Room.World.{World}
use punchline.Room.Types.{Piles}

abbrev pub hand_size : ℕ
hand_size = 7

-- The zero value of a card, which stands where a draw panics.
abbrev pub no_answer : AnswerCard
no_answer = record { id = []; text = []; tier = []; uuid = [] }

abbrev pub no_prompt : PromptCard
no_prompt = record { id = []; text = []; tier = []; uuid = [] }

-- `s[len(s)-1]` and `s[:len(s)-1]`.
unfoldable pub unsnoc {ℓ} : {A : Type ℓ} → List A → Option (List A × A)
unsnoc [] = none
unsnoc (x ∷ xs) = elim (unsnoc xs) [ none ↦ some ([], x) | some (ys, y) ↦ some (x ∷ ys, y) ]

module _ (w : World) where
  -- `r.answerPile = r.deck.ShuffledAnswers()`.
  unfoldable pub reshuffle_answers : Piles → Piles
  unfolding shuffled_answers
  reshuffle_answers p = record p {
    answer_pile = shuffled_answers p.deck (w.swaps p.seed (length p.deck.answers));
    seed = p.seed + 1;
  }

  unfoldable pub reshuffle_prompts : Piles → Piles
  unfolding shuffled_prompts
  reshuffle_prompts p = record p {
    prompt_pile = shuffled_prompts p.deck (w.swaps p.seed (length p.deck.prompts));
    seed = p.seed + 1;
  }

  unfoldable pub refilled : Piles → Piles
  unfolding reshuffle_answers
  refilled p = elim p.answer_pile [ [] ↦ reshuffle_answers p | _ ∷ _ ↦ p ]

  unfoldable pub refilled_prompts : Piles → Piles
  unfolding reshuffle_prompts
  refilled_prompts p = elim p.prompt_pile [ [] ↦ reshuffle_prompts p | _ ∷ _ ↦ p ]

  -- One round of the loop of `drawAnswers`.
  unfoldable pub draw_answer : Piles → AnswerCard × Piles
  unfolding refilled unsnoc
  draw_answer p =
      let q = refilled p in
      elim (unsnoc q.answer_pile) [
        | none ↦ (no_answer, record q { panicked = true })
        | some (rest, card) ↦ (card, record q { answer_pile = rest })
      ]

  unfoldable pub draw_answers : ℕ → Piles → List AnswerCard × Piles
  unfolding draw_answer
  draw_answers zero p = ([], p)
  draw_answers (suc n) p =
      let (card, q) = draw_answer p in let (out, s) = draw_answers n q in (card ∷ out, s)

  unfoldable pub draw_prompt : Piles → PromptCard × Piles
  unfolding refilled_prompts unsnoc
  draw_prompt p =
      let q = refilled_prompts p in
      elim (unsnoc q.prompt_pile) [
        | none ↦ (no_prompt, record q { panicked = true })
        | some (rest, card) ↦ (card, record q { prompt_pile = rest })
      ]

  unfoldable pub refill_hand : List AnswerCard → Piles → List AnswerCard × Piles
  unfolding draw_answers
  refill_hand hand p =
      if leb hand_size (length hand)
      then (hand, p)
      else (let (drawn, q) = draw_answers (hand_size - length hand) p in (hand ++ drawn, q))
