-- ===== src/Room/Flow/Steps.antt =====
-- Every call keeps the flow of a game.
use punchline.Base.{
  ℕ, ◌+◌, ◌*◌, ◌%◌, ◌≤◌, ◌<◌, ◌≡◌, refl, Bool, true, false, Option, some, none, length, arith, Text,
  [], ◌∷◌, length-append, Option-cases, inl, inr, get_elem?, suc, zero,
}
use punchline.Room.World.{World}
use punchline.Room.Types.{submitting, Player, Piles, Room, RoomError}
use punchline.Room.Persist.{touch}
use punchline.Room.Phase.{second, set_phase}
use punchline.Room.Round.{open_round, begin_round}
use punchline.Room.Turns.{schedule_computer_turns}
use punchline.Room.Join.{seat, add_player, try_join}
use punchline.Room.Leave.{min_players_to_start, in_play, answering}
use punchline.Room.Host.{
  run_round, start_game, fill_seats, started, start_computer_game, first_computer_index,
  next_computer_name, next_round, swap_prompt, skip_prompt, reset_game, play_again, end_game,
}
use punchline.Room.Seats.{IsLimited}
use punchline.Room.Flow.{IsFlowing, touch-IsFlowing}

-- The fields that the flow speaks of are the same, but for more players.
pub record SameFlow (r s : Room) : Type 0 where
  pub phase : s.phase ≡ r.phase
  pub phase_seq : s.phase_seq ≡ r.phase_seq
  pub timer : s.timer ≡ r.timer
  pub deadline : s.phase_deadline ≡ r.phase_deadline
  pub table : length s.submissions ≡ length r.submissions
  pub seats : length r.order ≤ length s.order

pub SameFlow-IsFlowing : (r s : Room) → SameFlow r s → IsFlowing r → IsFlowing s
SameFlow-IsFlowing r s k v = ground arith

seat-SameFlow : (w : World) (p : Player) (q : Piles) (r : Room) → SameFlow r (seat w p q r)
unfolding seat touch
seat-SameFlow w p q r = ground (arith, length-append r.order (p.id ∷ []))

module _ (w : World) where
  add_player-SameFlow : (name : Text) (c : Bool) (r : Room) → SameFlow r (add_player w name c r).0
  unfolding add_player
  add_player-SameFlow name c r = seat-SameFlow w _ _ r

  add_player-length :
      (name : Text) (c : Bool) (r : Room)
      → length (add_player w name c r).0.order ≡ length r.order + 1
  unfolding add_player seat touch
  add_player-length name c r = length-append r.order _

  fill_seats-submit_secs :
      (fuel : ℕ) (r : Room) → (fill_seats w fuel r).0.submit_secs ≡ r.submit_secs
  unfolding fill_seats add_player seat touch
  fill_seats-submit_secs zero r = refl
  fill_seats-submit_secs (suc fuel) r =
      ground (arith, fill_seats-submit_secs fuel (add_player w (next_computer_name r) true r).0)

  pub try_join-IsFlowing : (name : Text) (r : Room) → IsFlowing r → IsFlowing (try_join w name r).0
  unfolding try_join
  try_join-IsFlowing name r v = ground (
    arith,
    v,
    SameFlow-IsFlowing r (add_player w name false r).0 (add_player-SameFlow name false r) v,
  )

  schedule-SameFlow : (r : Room) → SameFlow r (schedule_computer_turns w r)
  unfolding schedule_computer_turns
  schedule-SameFlow r = ground arith

  pub schedule-IsFlowing : (r : Room) → IsFlowing r → IsFlowing (schedule_computer_turns w r)
  schedule-IsFlowing r v = SameFlow-IsFlowing r _ (schedule-SameFlow r) v

  open_round-IsFlowing :
      (judge : Text) (r : Room)
      → 3 ≤ length r.order
      → 0 < r.submit_secs
      → IsFlowing (open_round w judge r)
  unfolding open_round answering in_play
  open_round-IsFlowing judge r h k = ground arith

  run_round-IsFlowing :
      (i : ℕ) (r : Room)
      → 3 ≤ length r.order
      → 0 < r.submit_secs
      → IsFlowing r
      → IsFlowing (run_round w i r)
  unfolding run_round begin_round
  run_round-IsFlowing i r h k v =
      schedule-IsFlowing _ (elim (Option-cases (get_elem? r.order (i % length r.order))) [
        | inl e ↦ rw (e, begin_round) (SameFlow-IsFlowing r _ (ground arith) v)
        | inr (j, e) ↦
            rw (e, begin_round) (open_round-IsFlowing j (record r { judge_index = i }) h k)
      ])

  pub start_game-IsFlowing :
      (p : Text) (r : Room) → IsLimited r → IsFlowing r → IsFlowing (start_game w p r).0
  unfolding start_game
  start_game-IsFlowing p r l v = ground (arith, v, run_round-IsFlowing 0 r)

  pub next_round-IsFlowing :
      (p : Text) (r : Room) → IsLimited r → IsFlowing r → IsFlowing (next_round w p r).0
  unfolding next_round in_play
  next_round-IsFlowing p r l v =
      ground (arith, v, v.populated, run_round-IsFlowing ((r.judge_index + 1) % length r.order) r)

  fill_seats-IsFlowing : (fuel : ℕ) (r : Room) → IsFlowing r → IsFlowing (fill_seats w fuel r).0
  unfolding fill_seats
  fill_seats-IsFlowing zero r v = v
  fill_seats-IsFlowing (suc fuel) r v =
      let s = (add_player w (next_computer_name r) true r).0 in
      ground (
        arith,
        v,
        fill_seats-IsFlowing fuel s
            (SameFlow-IsFlowing r s (add_player-SameFlow (next_computer_name r) true r) v),
      )

  -- As many rounds as players are needed fill the seats, unless the room is full.
  pub fill_seats-enough :
      (fuel : ℕ) (r : Room)
      → 3 ≤ length r.order + fuel
      → (fill_seats w fuel r).1 ≡ none
      → 3 ≤ length (fill_seats w fuel r).0.order
  unfolding fill_seats
  fill_seats-enough zero r h e = omega arith
  fill_seats-enough (suc fuel) r h e =
      let s = (add_player w (next_computer_name r) true r).0 in
      ground (arith, fill_seats-enough fuel s, add_player-length (next_computer_name r) true r)

  started-IsFlowing :
      (o : Room × (Option RoomError))
      → IsFlowing o.0
      → 0 < o.0.submit_secs
      → (o.1 ≡ none → 3 ≤ length o.0.order)
      → IsFlowing (started w o).0
  unfolding started
  started-IsFlowing (r, none) v k h = run_round-IsFlowing (first_computer_index r) r (h refl) k v
  started-IsFlowing (r, some e) v k h = v

  pub start_computer_game-IsFlowing :
      (p : Text) (r : Room) → IsLimited r → IsFlowing r → IsFlowing (start_computer_game w p r).0
  unfolding start_computer_game
  start_computer_game-IsFlowing p r l v = ground (
    arith,
    v,
    started-IsFlowing (fill_seats w min_players_to_start r)
        (fill_seats-IsFlowing min_players_to_start r v)
        (omega (arith, fill_seats-submit_secs min_players_to_start r))
        (fill_seats-enough min_players_to_start r (omega arith)),
  )

  reopened-IsFlowing :
      (r : Room)
      → 3 ≤ length r.order
      → 0 < r.submit_secs
      → IsFlowing (set_phase submitting (r.submit_secs * second) (swap_prompt w r))
  unfolding swap_prompt set_phase in_play answering
  reopened-IsFlowing r h k = ground arith

  pub skip_prompt-IsFlowing :
      (p : Text) (r : Room) → IsLimited r → IsFlowing r → IsFlowing (skip_prompt w p r).0
  unfolding skip_prompt in_play
  skip_prompt-IsFlowing p r l v =
      let s = set_phase submitting (r.submit_secs * second) (swap_prompt w r) in
      ground (
        arith,
        v,
        v.populated,
        touch-IsFlowing (schedule_computer_turns w s),
        schedule-IsFlowing s,
        reopened-IsFlowing r,
      )

  pub play_again-IsFlowing : (p : Text) (r : Room) → IsFlowing r → IsFlowing (play_again w p r).0
  unfolding play_again reset_game touch in_play answering
  play_again-IsFlowing p r v = ground arith

pub end_game-IsFlowing : (p : Text) (r : Room) → IsFlowing r → IsFlowing (end_game p r).0
unfolding end_game in_play answering
end_game-IsFlowing p r v = ground arith
