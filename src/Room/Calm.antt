-- ===== src/Room/Calm.antt =====
-- Where the code indexes a pile or follows a player's pointer: none of it panics on a playable deck
-- and a coherent roster.
use punchline.Base.{
  ℕ, zero, suc, ◌-◌, ◌<◌, ◌≡◌, refl, List, [], ◌∷◌, Text, arith, false, length, some,
}
use punchline.Cards.Deck.{AnswerCard, Deck}
use punchline.Cards.Shuffle.{shuffled_prompts, shuffled_answers, length-shuffle}
use punchline.Room.World.{World}
use punchline.Room.Types.{Player, Piles}
use punchline.Room.Draw.{
  hand_size, unsnoc, refilled, refilled_prompts, reshuffle_answers, reshuffle_prompts, draw_answer,
  draw_answers, draw_prompt, refill_hand,
}
use punchline.Room.Roster.{find_player, put_player}
use punchline.Room.Round.{deal_to, deal_round}
use punchline.Room.Host.{reset_players}
use punchline.Room.Settings.{redeal}
use punchline.Room.Ids.{here, there, AllKnown, same-AllKnown, ids-put_player}
use punchline.Room.Piled.{ids-deal_to}

-- A deck with something to deal on either side.
pub record IsPlayable (d : Deck) : Type 0 where
  pub has_prompts : 0 < length d.prompts
  pub has_answers : 0 < length d.answers

pub record IsCalm (p : Piles) : Type 0 where
  pub dealable : IsPlayable p.deck
  pub calm : p.panicked ≡ false

unsnoc_total {ℓ} :
    {A : Type ℓ} (xs : List A)
    → 0 < length xs
    → (ys : List A) × (y : A) × (unsnoc xs ≡ some (ys, y))
unfolding unsnoc
unsnoc_total [] h = absurd (omega arith)
unsnoc_total (x ∷ []) h = ([], x, refl)
unsnoc_total (x ∷ y ∷ xs) h =
    let (ys, z, e) = unsnoc_total (y ∷ xs) (omega arith) in (x ∷ ys, z, rw e)

module _ (w : World) where
  refilled_some :
      (p : Piles) → IsCalm p → IsCalm (refilled w p) × (0 < length (refilled w p).answer_pile)
  unfolding refilled reshuffle_answers shuffled_answers
  refilled_some p c =
      ground (arith, length-shuffle (w.swaps p.seed (length p.deck.answers)) p.deck.answers)

  refilled_prompts_some :
      (p : Piles)
      → IsCalm p
      → IsCalm (refilled_prompts w p) × (0 < length (refilled_prompts w p).prompt_pile)
  unfolding refilled_prompts reshuffle_prompts shuffled_prompts
  refilled_prompts_some p c =
      ground (arith, length-shuffle (w.swaps p.seed (length p.deck.prompts)) p.deck.prompts)

  draw_answer-IsCalm : (p : Piles) → IsCalm p → IsCalm (draw_answer w p).1
  unfolding draw_answer
  draw_answer-IsCalm p c =
      let (k, h) = refilled_some p c in
      let (ys, y, e) = unsnoc_total (refilled w p).answer_pile h in
      rw (e, draw_answer) (record { dealable = k.dealable; calm = k.calm })

  pub draw_prompt-IsCalm : (p : Piles) → IsCalm p → IsCalm (draw_prompt w p).1
  unfolding draw_prompt
  draw_prompt-IsCalm p c =
      let (k, h) = refilled_prompts_some p c in
      let (ys, y, e) = unsnoc_total (refilled_prompts w p).prompt_pile h in
      rw (e, draw_prompt) (record { dealable = k.dealable; calm = k.calm })

  pub draw_answers-IsCalm : (n : ℕ) (p : Piles) → IsCalm p → IsCalm (draw_answers w n p).1
  unfolding draw_answers
  draw_answers-IsCalm zero p c = c
  draw_answers-IsCalm (suc n) p c =
      draw_answers-IsCalm n (draw_answer w p).1 (draw_answer-IsCalm p c)

  pub refill_hand-IsCalm :
      (h : List AnswerCard) (p : Piles) → IsCalm p → IsCalm (refill_hand w h p).1
  unfolding refill_hand
  refill_hand-IsCalm h p c = ground (arith, draw_answers-IsCalm (hand_size - length h) p c)

  deal_to-IsCalm :
      (judge id : Text) (ps : List Player) (p : Piles) (q : Player)
      → find_player id ps ≡ some q
      → IsCalm p
      → IsCalm (deal_to w judge id ps p).1
  unfolding deal_to
  deal_to-IsCalm judge id ps p q e c = rw (e, deal_to) (refill_hand-IsCalm q.hand p c)

  pub deal_round-IsCalm :
      (judge : Text) (js : List Text) (ps : List Player) (p : Piles)
      → AllKnown ps js
      → IsCalm p
      → IsCalm (deal_round w judge js ps p).1
  unfolding deal_round
  deal_round-IsCalm judge [] ps p k c = c
  deal_round-IsCalm judge (id ∷ js) ps p k c =
      let (q, e) = k id (here refl) in
      deal_round-IsCalm judge js (deal_to w judge id ps p).0 (deal_to w judge id ps p).1
        (same-AllKnown _ ps js (ids-deal_to w judge id ps p) (λ j h. k j (there h)))
        (deal_to-IsCalm judge id ps p q e c)

  pub redeal-IsCalm :
      (js : List Text) (ps : List Player) (p : Piles)
      → AllKnown ps js
      → IsCalm p
      → IsCalm (redeal w js ps p).1
  unfolding redeal
  redeal-IsCalm [] ps p k c = c
  redeal-IsCalm (id ∷ js) ps p k c =
      let (q, e) = k id (here refl) in
      rw (e, redeal)
        (redeal-IsCalm js (put_player _ ps) (draw_answers w hand_size p).1
          (same-AllKnown _ ps js (ids-put_player id q _ ps e refl) (λ j h. k j (there h)))
          (draw_answers-IsCalm hand_size p c))

  pub reset_players-IsCalm :
      (ps : List Player) (p : Piles) → IsCalm p → IsCalm (reset_players w ps p).1
  unfolding reset_players
  reset_players-IsCalm [] p c = c
  reset_players-IsCalm (q ∷ qs) p c =
      reset_players-IsCalm qs (refill_hand w q.hand p).1 (refill_hand-IsCalm q.hand p c)
