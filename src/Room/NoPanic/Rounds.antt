-- ===== src/Room/NoPanic/Rounds.antt =====
-- Dealing a round, a hand or a new tier does not panic on a coherent roster.
use punchline.Base.{
  ℕ, zero, suc, ◌+◌, ◌*◌, ◌%◌, ◌≤◌, ◌<◌, ◌≡◌, refl, Bool, true, false, List, [], ◌∷◌, Option, none,
  some, Text, arith, length, get_elem?, Option-cases, inl, inr,
}
use native.Mathlib.Nat.{mod-lt, le_trans}
use punchline.Room.World.{World}
use punchline.Room.Types.{submitting, Room, RoomError}
use punchline.Room.Draw.{hand_size, draw_prompt}
use punchline.Room.Persist.{touch}
use punchline.Room.Phase.{second, set_phase}
use punchline.Room.Round.{open_round, begin_round}
use punchline.Room.Turns.{schedule_computer_turns}
use punchline.Room.Join.{new_player, seat, add_player, try_join}
use punchline.Room.Host.{
  run_round, start_game, fill_seats, started, start_computer_game, first_computer_index,
  next_computer_name, next_round, swap_prompt, skip_prompt, reset_game, play_again,
}
use punchline.Room.Settings.{
  Settings, apply_limits, change_tier, apply_tier, normalize_tier, update_settings,
}
use punchline.Room.Leave.{min_players_to_start, in_play}
use punchline.Room.Ids.{ids, ids-AllKnown}
use punchline.Room.Calm.{
  draw_prompt-IsCalm, draw_answers-IsCalm, deal_round-IsCalm, redeal-IsCalm, reset_players-IsCalm,
}
use punchline.Room.Flow.Steps.{fill_seats-enough}
use punchline.Room.NoPanic.{
  IsReady, SamePiles-trans, SamePiles-IsReady, touch-SamePiles, set_phase-SamePiles,
  schedule-SamePiles,
}

get_elem?_total {ℓ} :
    {A : Type ℓ} (xs : List A) (i : ℕ) → i < length xs → (a : A) × (get_elem? xs i ≡ some a)
get_elem?_total [] i h = elim h [ ]
get_elem?_total (x ∷ xs) zero h = (x, refl)
get_elem?_total (x ∷ xs) (suc i) h = get_elem?_total xs i (omega arith)

limits-IsReady : (s : Settings) (r : Room) → IsReady r → IsReady (apply_limits s r)
unfolding apply_limits
limits-IsReady s r v = record { calm = v.calm; full = v.full }

limits-known :
    (s : Settings) (r : Room)
    → ids r.players ≡ r.order
    → ids (apply_limits s r).players ≡ (apply_limits s r).order
unfolding apply_limits
limits-known s r k = k

module _ (w : World) where
  open_round-IsReady :
      (judge : Text) (r : Room)
      → ids r.players ≡ r.order
      → IsReady r
      → IsReady (open_round w judge r)
  unfolding open_round
  open_round-IsReady judge r k v =
      let c =
        deal_round-IsCalm w judge r.order r.players (draw_prompt w r.piles).1
          (ids-AllKnown r.players r.order k) (draw_prompt-IsCalm w r.piles v.calm) in
      record { calm = c; full = v.full }

  pub run_round-IsReady :
      (i : ℕ) (r : Room)
      → ids r.players ≡ r.order
      → 0 < length r.order
      → IsReady r
      → IsReady (run_round w i r)
  unfolding run_round begin_round
  run_round-IsReady i r k h v =
      let (j, e) = get_elem?_total r.order (i % length r.order) (grind (arith, mod-lt)) in
      SamePiles-IsReady _ _ (schedule-SamePiles w _) (
        rw (e, begin_round)
          (open_round-IsReady j (record r { judge_index = i }) k
            (record { calm = v.calm; full = v.full })))

  pub start_game-IsReady :
      (p : Text) (r : Room) → ids r.players ≡ r.order → IsReady r → IsReady (start_game w p r).0
  unfolding start_game
  start_game-IsReady p r k v = ground (arith, v, run_round-IsReady 0 r k)

  pub next_round-IsReady :
      (p : Text) (r : Room)
      → ids r.players ≡ r.order
      → (in_play r.phase ≡ true → 3 ≤ length r.order)
      → IsReady r
      → IsReady (next_round w p r).0
  unfolding next_round in_play
  next_round-IsReady p r k h v =
      ground (arith, v, h, run_round-IsReady ((r.judge_index + 1) % length r.order) r k)

  add_player-IsReady :
      (name : Text) (c : Bool) (r : Room) → IsReady r → IsReady (add_player w name c r).0
  unfolding add_player seat touch new_player
  add_player-IsReady name c r v = record {
    calm =
        draw_answers-IsCalm w hand_size (record (r.piles) { seed = r.seed + 2 })
          (record { dealable = v.calm.dealable; calm = v.calm.calm });
    full = v.full;
  }

  pub try_join-IsReady : (name : Text) (r : Room) → IsReady r → IsReady (try_join w name r).0
  unfolding try_join
  try_join-IsReady name r v = ground (arith, v, add_player-IsReady name false r v)

  fill_seats-IsReady : (fuel : ℕ) (r : Room) → IsReady r → IsReady (fill_seats w fuel r).0
  unfolding fill_seats
  fill_seats-IsReady zero r v = v
  fill_seats-IsReady (suc fuel) r v =
      ground
        (arith, v, fill_seats-IsReady fuel _ (add_player-IsReady (next_computer_name r) true r v))

  pub started-IsReady :
      (o : Room × (Option RoomError))
      → ids o.0.players ≡ o.0.order
      → (o.1 ≡ none → 3 ≤ length o.0.order)
      → IsReady o.0
      → IsReady (started w o).0
  unfolding started
  started-IsReady (r, none) k h v =
      run_round-IsReady (first_computer_index r) r k (le_trans (omega arith) (h refl)) v
  started-IsReady (r, some e) k h v = v

  pub start_computer_game-IsReady :
      (p : Text) (r : Room)
      → ids (fill_seats w min_players_to_start r).0.players
        ≡ (fill_seats w min_players_to_start r).0.order
      → IsReady r
      → IsReady (start_computer_game w p r).0
  unfolding start_computer_game
  start_computer_game-IsReady p r k v = ground (
    arith,
    v,
    started-IsReady (fill_seats w min_players_to_start r) k
        (fill_seats-enough w min_players_to_start r (omega arith))
        (fill_seats-IsReady min_players_to_start r v),
  )

  swap_prompt-IsReady : (r : Room) → IsReady r → IsReady (swap_prompt w r)
  unfolding swap_prompt
  swap_prompt-IsReady r v =
      let c = draw_prompt-IsCalm w r.piles v.calm in
      elim (Option-cases r.prompt) [
        | inl e ↦ rw (e, swap_prompt) (record { calm = c; full = v.full })
        | inr (card, e) ↦ rw (e, swap_prompt) (record { calm = c; full = v.full })
      ]

  pub skip_prompt-IsReady : (p : Text) (r : Room) → IsReady r → IsReady (skip_prompt w p r).0
  unfolding skip_prompt
  skip_prompt-IsReady p r v =
      let s = set_phase submitting (r.submit_secs * second) (swap_prompt w r) in
      let t = schedule_computer_turns w s in
      ground (
        arith,
        v,
        SamePiles-IsReady (swap_prompt w r) (touch t)
            (SamePiles-trans (swap_prompt w r) s (touch t)
              (set_phase-SamePiles submitting (r.submit_secs * second) (swap_prompt w r))
              (SamePiles-trans s t (touch t) (schedule-SamePiles w s) (touch-SamePiles t)))
            (swap_prompt-IsReady r v),
      )

  reset_game-IsReady : (r : Room) → IsReady r → IsReady (reset_game w r)
  unfolding reset_game
  reset_game-IsReady r v = record {
    calm = reset_players-IsCalm w r.players r.piles v.calm;
    full = v.full;
  }

  pub play_again-IsReady : (p : Text) (r : Room) → IsReady r → IsReady (play_again w p r).0
  unfolding play_again
  play_again-IsReady p r v = ground (
    arith,
    v,
    SamePiles-IsReady (reset_game w r) (touch (reset_game w r)) (touch-SamePiles (reset_game w r))
        (reset_game-IsReady r v),
  )

  change_tier-IsReady :
      (tier : Text) (r : Room)
      → ids r.players ≡ r.order
      → IsReady r
      → IsReady (change_tier w tier r)
  unfolding change_tier
  change_tier-IsReady tier r k v = record {
    calm =
        redeal-IsCalm w r.order r.players _ (ids-AllKnown r.players r.order k)
          (record { dealable = v.full tier; calm = v.calm.calm });
    full = v.full;
  }

  pub update_settings-IsReady :
      (p : Text) (s : Option Settings) (r : Room)
      → ids r.players ≡ r.order
      → IsReady r
      → IsReady (update_settings w p s r).0
  unfolding update_settings apply_tier
  update_settings-IsReady p none r k v = ground (arith, v)
  update_settings-IsReady p (some s) r k v =
      let t = apply_limits s r in
      let tier = normalize_tier s.content_tier in
      let ready : IsReady t = limits-IsReady s r v in
      ground (
        arith,
        v,
        SamePiles-IsReady t (touch t) (touch-SamePiles t) ready,
        SamePiles-IsReady (change_tier w tier t) (touch (change_tier w tier t))
            (touch-SamePiles (change_tier w tier t))
            (change_tier-IsReady tier t (limits-known s r k) ready),
      )
