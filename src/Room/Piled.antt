-- ===== src/Room/Piled.antt =====
-- What dealing cards does to the players and to the piles.
use punchline.Base.{
  ℕ, zero, suc, ◌-◌, ◌≤◌, ◌≡◌, refl, ◌∙◌, List, [], ◌∷◌, Text, arith, Option-cases, inl, inr,
  length,
}
use native.Mathlib.Nat.{le_trans}
use punchline.Cards.Deck.{AnswerCard}
use punchline.Room.World.{World}
use punchline.Room.Types.{Player, Piles}
use punchline.Room.Draw.{
  hand_size, refilled, refilled_prompts, reshuffle_answers, reshuffle_prompts, draw_answer,
  draw_answers, draw_prompt, refill_hand,
}
use punchline.Room.Roster.{find_player, put_player}
use punchline.Room.Round.{deal_to, deal_round}
use punchline.Room.Host.{reset_players}
use punchline.Room.Settings.{redeal}
use punchline.Room.Ids.{ids, ids-put_player}

module _ (w : World) where
  pub ids-deal_to :
      (judge id : Text) (ps : List Player) (p : Piles) → ids (deal_to w judge id ps p).0 ≡ ids ps
  unfolding deal_to
  ids-deal_to judge id ps p = elim (Option-cases (find_player id ps)) [
    | inl e ↦ rw (e, deal_to) refl
    | inr (q, e) ↦ rw (e, deal_to) (ids-put_player id q _ ps e refl)
  ]

  pub ids-deal_round :
      (judge : Text) (js : List Text) (ps : List Player) (p : Piles)
      → ids (deal_round w judge js ps p).0 ≡ ids ps
  unfolding deal_round
  ids-deal_round judge [] ps p = refl
  ids-deal_round judge (id ∷ js) ps p =
      ids-deal_round judge js (deal_to w judge id ps p).0 (deal_to w judge id ps p).1
      ∙ ids-deal_to judge id ps p

  pub ids-redeal :
      (js : List Text) (ps : List Player) (p : Piles) → ids (redeal w js ps p).0 ≡ ids ps
  unfolding redeal
  ids-redeal [] ps p = refl
  ids-redeal (id ∷ js) ps p = elim (Option-cases (find_player id ps)) [
    | inl e ↦ rw (e, redeal) (ids-redeal js ps _)
    | inr (q, e) ↦
        rw (e, redeal) (ids-redeal js (put_player _ ps) _ ∙ ids-put_player id q _ ps e refl)
  ]

  pub ids-reset_players : (ps : List Player) (p : Piles) → ids (reset_players w ps p).0 ≡ ids ps
  unfolding reset_players
  ids-reset_players [] p = refl
  ids-reset_players (q ∷ qs) p = λ i. q.id ∷ ids-reset_players qs (refill_hand w q.hand p).1 i

  -- No draw goes back to an earlier number of the random source.
  pub draw_answer-seed : (p : Piles) → p.seed ≤ (draw_answer w p).1.seed
  unfolding draw_answer refilled reshuffle_answers
  draw_answer-seed p = ground arith

  pub draw_answers-seed : (n : ℕ) (p : Piles) → p.seed ≤ (draw_answers w n p).1.seed
  unfolding draw_answers
  draw_answers-seed zero p = omega arith
  draw_answers-seed (suc n) p =
      omega (arith, draw_answer-seed p, draw_answers-seed n (draw_answer w p).1)

  pub draw_prompt-seed : (p : Piles) → p.seed ≤ (draw_prompt w p).1.seed
  unfolding draw_prompt refilled_prompts reshuffle_prompts
  draw_prompt-seed p = ground arith

  pub refill_hand-seed : (h : List AnswerCard) (p : Piles) → p.seed ≤ (refill_hand w h p).1.seed
  unfolding refill_hand
  refill_hand-seed h p = ground (arith, draw_answers-seed (hand_size - length h) p)

  deal_to-seed :
      (judge id : Text) (ps : List Player) (p : Piles) → p.seed ≤ (deal_to w judge id ps p).1.seed
  unfolding deal_to
  deal_to-seed judge id ps p = elim (Option-cases (find_player id ps)) [
    | inl e ↦ rw (e, deal_to) (omega arith)
    | inr (q, e) ↦ rw (e, deal_to) (refill_hand-seed q.hand p)
  ]

  pub deal_round-seed :
      (judge : Text) (js : List Text) (ps : List Player) (p : Piles)
      → p.seed ≤ (deal_round w judge js ps p).1.seed
  unfolding deal_round
  deal_round-seed judge [] ps p = omega arith
  deal_round-seed judge (id ∷ js) ps p = omega (
    arith,
    deal_to-seed judge id ps p,
    deal_round-seed judge js (deal_to w judge id ps p).0 (deal_to w judge id ps p).1,
  )

  pub redeal-seed :
      (js : List Text) (ps : List Player) (p : Piles) → p.seed ≤ (redeal w js ps p).1.seed
  unfolding redeal
  redeal-seed [] ps p = omega arith
  redeal-seed (id ∷ js) ps p = elim (Option-cases (find_player id ps)) [
    | inl e ↦ rw (e, redeal) (redeal-seed js ps _)
    | inr (q, e) ↦
        rw (e, redeal)
          (le_trans (draw_answers-seed hand_size p)
            (redeal-seed js (put_player _ ps) (draw_answers w hand_size p).1))
  ]

  pub reset_players-seed : (ps : List Player) (p : Piles) → p.seed ≤ (reset_players w ps p).1.seed
  unfolding reset_players
  reset_players-seed [] p = omega arith
  reset_players-seed (q ∷ qs) p =
      omega (arith, refill_hand-seed q.hand p, reset_players-seed qs (refill_hand w q.hand p).1)
