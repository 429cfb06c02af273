-- ===== src/Room/History.antt =====
-- What holds of a room after every history of calls.
use punchline.Base.{ℕ, ◌≡◌, refl, false, List, [], ◌∷◌, Text, arith}
use punchline.Cards.Deck.{Deck, deck_for, tier_party}
use punchline.Cards.Validate.{ok, validate_deck}
use punchline.Cards.Valid.{validate_deck-IsValid, IsValid-deals}
use punchline.Room.World.{World}
use punchline.Room.Types.{Room}
use punchline.Room.Join.{new_room}
use punchline.Room.Step.{
  Call, joins, undoes_join, leaves, starts, starts_computer, advances, ends, skips, plays_again,
  attaches, detaches, submits, picks, sets, deadline, submit_turn_due, judge_turn_due, resumes,
  handle, step, run,
}
use punchline.Room.Keeps.{
  submit_answer-Keeps, pick_winner-Keeps, start_game-Keeps, next_round-Keeps, end_game-Keeps,
  skip_prompt-Keeps, play_again-Keeps,
}
use punchline.Room.Keeps.Timers.{
  on_deadline-Keeps, submit_computer_answer-Keeps, pick_computer_winner-Keeps, resume-Keeps,
}
use punchline.Room.Keeps.Clients.{attach-Keeps, detach-Keeps}
use punchline.Room.Leave.{in_play, answering}
use punchline.Room.Flow.{IsFlowing}
use punchline.Room.Flow.Steps.{
  try_join-IsFlowing, start_game-IsFlowing, start_computer_game-IsFlowing, next_round-IsFlowing,
  end_game-IsFlowing, skip_prompt-IsFlowing, play_again-IsFlowing,
}
use punchline.Room.Flow.Turns.{
  undo_join-IsFlowing, leave-IsFlowing, attach-IsFlowing, detach-IsFlowing, submit_answer-IsFlowing,
  pick_winner-IsFlowing, update_settings-IsFlowing, on_deadline-IsFlowing,
  submit_computer_answer-IsFlowing, pick_computer_winner-IsFlowing, resume-IsFlowing,
}
use punchline.Room.Calm.{IsPlayable}
use punchline.Room.Leave.{min_players_to_start}
use punchline.Room.NoPanic.{IsReady, SamePiles-IsReady}
use punchline.Room.NoPanic.Rounds.{
  try_join-IsReady, start_game-IsReady, start_computer_game-IsReady, next_round-IsReady,
  skip_prompt-IsReady, play_again-IsReady, update_settings-IsReady,
}
use punchline.Room.NoPanic.Others.{
  undo_join-SamePiles, leave-SamePiles, end_game-SamePiles, attach-SamePiles, detach-SamePiles,
  submit_answer-SamePiles, pick_winner-SamePiles, on_deadline-SamePiles,
  submit_computer_answer-SamePiles, pick_computer_winner-SamePiles, resume-SamePiles,
}
use punchline.Room.Seats.{Unrepeated, IsLimited, IsSeated, Keeps-IsSeated}
use punchline.Room.Seats.Joins.{
  try_join-IsSeated, fill_seats-IsSeated, start_computer_game-IsSeated,
}
use punchline.Room.Seats.Leaves.{leave-IsSeated, undo_join-IsSeated}
use punchline.Room.Seats.Limits.{update_settings-IsSeated}

module _ (w : World) (unrepeated : Unrepeated w) where
  handle-IsSeated : (c : Call) (r : Room) → IsSeated w r → IsSeated w (handle w c r)
  unfolding handle
  handle-IsSeated (joins name) r v = try_join-IsSeated w unrepeated name r v
  handle-IsSeated (undoes_join p) r v = undo_join-IsSeated w p r v
  handle-IsSeated (leaves p) r v = leave-IsSeated w p r v
  handle-IsSeated (starts p) r v = Keeps-IsSeated w r _ (start_game-Keeps w p r) v
  handle-IsSeated (starts_computer p) r v = start_computer_game-IsSeated w unrepeated p r v
  handle-IsSeated (advances p) r v = Keeps-IsSeated w r _ (next_round-Keeps w p r) v
  handle-IsSeated (ends p) r v = Keeps-IsSeated w r _ (end_game-Keeps p r) v
  handle-IsSeated (skips p) r v = Keeps-IsSeated w r _ (skip_prompt-Keeps w p r) v
  handle-IsSeated (plays_again p) r v = Keeps-IsSeated w r _ (play_again-Keeps w p r) v
  handle-IsSeated (attaches p token conn) r v = Keeps-IsSeated w r _ (attach-Keeps p token conn r) v
  handle-IsSeated (detaches p conn) r v = Keeps-IsSeated w r _ (detach-Keeps p conn r) v
  handle-IsSeated (submits p card) r v = Keeps-IsSeated w r _ (submit_answer-Keeps w p card r) v
  handle-IsSeated (picks p s) r v = Keeps-IsSeated w r _ (pick_winner-Keeps p s r) v
  handle-IsSeated (sets p s) r v = update_settings-IsSeated w p s r v
  handle-IsSeated (deadline seq) r v = Keeps-IsSeated w r _ (on_deadline-Keeps w seq r) v
  handle-IsSeated (submit_turn_due p seq) r v =
      Keeps-IsSeated w r _ (submit_computer_answer-Keeps w p seq r) v
  handle-IsSeated (judge_turn_due p seq) r v =
      Keeps-IsSeated w r _ (pick_computer_winner-Keeps w p seq r) v
  handle-IsSeated resumes r v = Keeps-IsSeated w r _ (resume-Keeps w r) v

  handle-IsFlowing : (c : Call) (r : Room) → IsLimited r → IsFlowing r → IsFlowing (handle w c r)
  unfolding handle
  handle-IsFlowing (joins name) r l v = try_join-IsFlowing w name r v
  handle-IsFlowing (undoes_join p) r l v = undo_join-IsFlowing p r v
  handle-IsFlowing (leaves p) r l v = leave-IsFlowing w p r v
  handle-IsFlowing (starts p) r l v = start_game-IsFlowing w p r l v
  handle-IsFlowing (starts_computer p) r l v = start_computer_game-IsFlowing w p r l v
  handle-IsFlowing (advances p) r l v = next_round-IsFlowing w p r l v
  handle-IsFlowing (ends p) r l v = end_game-IsFlowing p r v
  handle-IsFlowing (skips p) r l v = skip_prompt-IsFlowing w p r l v
  handle-IsFlowing (plays_again p) r l v = play_again-IsFlowing w p r v
  handle-IsFlowing (attaches p token conn) r l v = attach-IsFlowing p token conn r v
  handle-IsFlowing (detaches p conn) r l v = detach-IsFlowing p conn r v
  handle-IsFlowing (submits p card) r l v = submit_answer-IsFlowing w p card r v
  handle-IsFlowing (picks p s) r l v = pick_winner-IsFlowing p s r v
  handle-IsFlowing (sets p s) r l v = update_settings-IsFlowing w p s r v
  handle-IsFlowing (deadline seq) r l v = on_deadline-IsFlowing w seq r v
  handle-IsFlowing (submit_turn_due p seq) r l v = submit_computer_answer-IsFlowing w p seq r v
  handle-IsFlowing (judge_turn_due p seq) r l v = pick_computer_winner-IsFlowing w p seq r v
  handle-IsFlowing resumes r l v = resume-IsFlowing w r v

  handle-IsReady :
      (c : Call) (r : Room) → IsSeated w r → IsFlowing r → IsReady r → IsReady (handle w c r)
  unfolding handle
  handle-IsReady (joins name) r l f v = try_join-IsReady w name r v
  handle-IsReady (undoes_join p) r l f v = SamePiles-IsReady r _ (undo_join-SamePiles p r) v
  handle-IsReady (leaves p) r l f v = SamePiles-IsReady r _ (leave-SamePiles w p r l.known) v
  handle-IsReady (starts p) r l f v = start_game-IsReady w p r l.known v
  handle-IsReady (starts_computer p) r l f v =
      start_computer_game-IsReady w p r
        (fill_seats-IsSeated w unrepeated min_players_to_start r l).known v
  handle-IsReady (advances p) r l f v = next_round-IsReady w p r l.known f.populated v
  handle-IsReady (ends p) r l f v = SamePiles-IsReady r _ (end_game-SamePiles p r) v
  handle-IsReady (skips p) r l f v = skip_prompt-IsReady w p r v
  handle-IsReady (plays_again p) r l f v = play_again-IsReady w p r v
  handle-IsReady (attaches p token conn) r l f v =
      SamePiles-IsReady r _ (attach-SamePiles p token conn r) v
  handle-IsReady (detaches p conn) r l f v = SamePiles-IsReady r _ (detach-SamePiles p conn r) v
  handle-IsReady (submits p card) r l f v =
      SamePiles-IsReady r _ (submit_answer-SamePiles w p card r) v
  handle-IsReady (picks p s) r l f v = SamePiles-IsReady r _ (pick_winner-SamePiles p s r) v
  handle-IsReady (sets p s) r l f v = update_settings-IsReady w p s r l.known v
  handle-IsReady (deadline seq) r l f v = SamePiles-IsReady r _ (on_deadline-SamePiles w seq r) v
  handle-IsReady (submit_turn_due p seq) r l f v =
      SamePiles-IsReady r _ (submit_computer_answer-SamePiles w p seq r) v
  handle-IsReady (judge_turn_due p seq) r l f v =
      SamePiles-IsReady r _ (pick_computer_winner-SamePiles w p seq r) v
  handle-IsReady resumes r l f v = SamePiles-IsReady r _ (resume-SamePiles w r) v

  at-IsSeated : (t : ℕ) (r : Room) → IsSeated w r → IsSeated w (record r { now = t })
  at-IsSeated t r v = record {
    known = v.known;
    distinct = v.distinct;
    limited = omega arith;
    unused = v.unused;
  }

  -- One call at a time `t`, in any state that the two invariants allow.
  step-invariants :
      (t : ℕ) (c : Call) (r : Room)
      → IsSeated w r × IsFlowing r
      → IsSeated w (step w (t, c) r) × IsFlowing (step w (t, c) r)
  unfolding step
  step-invariants t c r v =
      let s = record r { now = t } in
      let seated = at-IsSeated t r v.0 in
      (handle-IsSeated c s seated, handle-IsFlowing c s seated.limited (ground (arith, v.1)))

  run-invariants :
      (cs : List (ℕ × Call)) (r : Room)
      → IsSeated w r × IsFlowing r
      → IsSeated w (run w cs r) × IsFlowing (run w cs r)
  unfolding run
  run-invariants [] r v = v
  run-invariants ((t, c) ∷ cs) r v = run-invariants cs (step w (t, c) r) (step-invariants t c r v)

  new_room-invariants :
      (code : Text) (d : Deck) (now seed : ℕ)
      → IsSeated w (new_room w code d now seed) × IsFlowing (new_room w code d now seed)
  unfolding new_room in_play answering
  new_room-invariants code d now seed = (
    record { known = refl; distinct = tt; limited = omega arith; unused = λ k h. tt },
    ground arith,
  )

  -- After every history of calls on a new room, the order lists exactly the players, each once, the
  -- roster fits in the room, and the score limit, the answer time and the capacity are within
  -- 1..20, 15..300 and 3..20, if no two draws of a player id give the same id.
  pub new_room-run-IsSeated :
      (code : Text) (d : Deck) (now seed : ℕ) (cs : List (ℕ × Call))
      → IsSeated w (run w cs (new_room w code d now seed))
  new_room-run-IsSeated code d now seed cs =
      (run-invariants cs (new_room w code d now seed) (new_room-invariants code d now seed)).0

  -- After every history of calls on a new room, a round has three players or more; while answers are
  -- taken, fewer are in than there are players who are not the judge; while the judge decides there
  -- is an answer; and the timer is armed with the present phase sequence exactly in these two
  -- phases, if no two draws of a player id give the same id.
  pub new_room-run-IsFlowing :
      (code : Text) (d : Deck) (now seed : ℕ) (cs : List (ℕ × Call))
      → IsFlowing (run w cs (new_room w code d now seed))
  new_room-run-IsFlowing code d now seed cs =
      (run-invariants cs (new_room w code d now seed) (new_room-invariants code d now seed)).1

  run-IsReady :
      (cs : List (ℕ × Call)) (r : Room)
      → IsSeated w r × IsFlowing r
      → IsReady r
      → IsReady (run w cs r)
  unfolding run step
  run-IsReady [] r v k = k
  run-IsReady ((t, c) ∷ cs) r v k =
      let s = record r { now = t } in
      run-IsReady cs _ (step-invariants t c r v) (
        handle-IsReady c s (at-IsSeated t r v.0) (ground (arith, v.1))
          (record { calm = k.calm; full = k.full }))

  -- No history of calls on a new room panics, if the deck has a prompt and an answer at every tier
  -- and no two draws of a player id give the same id.
  new_room-run_calm :
      (code : Text) (d : Deck) (now seed : ℕ) (cs : List (ℕ × Call))
      → ((tier : Text) → IsPlayable (deck_for d tier))
      → (run w cs (new_room w code d now seed)).panicked ≡ false
  unfolding new_room
  new_room-run_calm code d now seed cs h =
      (run-IsReady cs (new_room w code d now seed) (new_room-invariants code d now seed)
        (record { calm = record { dealable = h tier_party; calm = refl }; full = h })).calm.calm

  -- No history of calls on a new room over a deck that `validateDeck` has accepted panics, if no two
  -- draws of a player id give the same id.
  pub validate_deck-run_calm :
      (code : Text) (d e : Deck) (now seed : ℕ) (cs : List (ℕ × Call))
      → validate_deck d ≡ ok e
      → (run w cs (new_room w code e now seed)).panicked ≡ false
  validate_deck-run_calm code d e now seed cs h = new_room-run_calm code e now seed cs (λ tier.
      let (p, a) = IsValid-deals e tier (validate_deck-IsValid d e h) in
      record { has_prompts = p; has_answers = a })
