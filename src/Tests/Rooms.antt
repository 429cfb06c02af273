-- ===== src/Tests/Rooms.antt =====
-- Rooms and histories.
use punchline.Base.{ℕ, ◌≡◌, refl, List, [], ◌∷◌, Text, codes, arith, length}
use punchline.Room.World.{new_id}
use punchline.Cards.Deck.{AnswerCard}
use punchline.Room.Types.{Room, Player, Submission, judging, scoring}
use punchline.Room.Join.{
  new_room, new_player, add_player, seat, try_join, valid_player_name, undo_join, unseat,
}
use punchline.Room.Persist.{touch}
use punchline.Room.Host.{
  start_game, start_computer_game, fill_seats, started, next_computer_name, first_computer_index,
}
use punchline.Room.Leave.{leave, remove_player, apply_roster_loss, answering}
use punchline.Room.Settings.{change_tier, apply_tier, apply_limits, normalize_tier, update_settings}
use punchline.Room.Step.{Call, joins, handle, step, run, ends, deadline}
use punchline.Room.Seats.{IsSeated}
use punchline.Room.History.{new_room-run-IsSeated, new_room-run-IsFlowing, validate_deck-run_calm}
use punchline.Room.Roster.{find_player, has_submission}
use punchline.Tests.Decks.{big_deck, big_deck_accepted}
use punchline.Base.{none}
use punchline.Room.Join.{attach}
use punchline.Room.Host.{next_round, end_game, skip_prompt, play_again}
use punchline.Room.Submit.{submit_answer, pick_winner}
use punchline.Room.Refusals.{requests-IsAtomic, IsAtomic, handle-command, handle-stale}
use punchline.Room.Secrets.{snapshot_hides}
use punchline.Room.Snapshot.{snapshot_for}
use punchline.Room.Departed.{leave-restore_room}
use punchline.Room.Restore.{restore_room, ok}
use punchline.Room.Persist.{persisted_state}
use punchline.Base.{text_discrete, ap, true, false, ◌≢◌}
use punchline.Room.Flow.{IsFlowing}
use punchline.Tests.Inputs.{counting, counting-Unrepeated, small_deck}

abbrev pub party : Room
party = new_room counting (codes "ABCD") small_deck 1000 0

abbrev pub three_join : List (ℕ × Call)
three_join = (1, joins (codes "Ann")) ∷ (2, joins (codes "Bob")) ∷ (3, joins (codes "Cy")) ∷ []

new_room-run-IsSeated_example : IsSeated counting (run counting three_join party)
new_room-run-IsSeated_example =
    new_room-run-IsSeated counting counting-Unrepeated (codes "ABCD") small_deck 1000 0 three_join

-- The functions that the runs go through.
abbrev pub program : Unit {0}
unfolding run step handle try_join valid_player_name new_room new_player add_player seat touch
    start_game leave undo_join start_computer_game fill_seats started next_computer_name
    first_computer_index change_tier apply_tier apply_limits normalize_tier update_settings
    remove_player apply_roster_loss answering unseat
program = tt

three_seats : length (run counting three_join party).order ≡ 3
unfolding program
three_seats = refl

new_room-run-IsFlowing_example : IsFlowing (run counting three_join party)
new_room-run-IsFlowing_example =
    new_room-run-IsFlowing counting counting-Unrepeated (codes "ABCD") small_deck 1000 0 three_join

validate_deck-run_calm_example :
    (run counting three_join (new_room counting (codes "ABCD") big_deck 1000 0)).panicked ≡ false
validate_deck-run_calm_example =
    validate_deck-run_calm counting counting-Unrepeated (codes "ABCD") big_deck big_deck 1000 0
      three_join big_deck_accepted

-- A room of one player whose round is scored.
abbrev ann : Player
ann = record {
  id = codes "x";
  name = codes "Ann";
  guest_token = codes "t";
  score = 1;
  connected = true;
  is_computer = false;
  is_judge = true;
  submitted = false;
  hand = [];
}

abbrev scored : Room
scored = record party {
  phase = scoring;
  players = ann ∷ [];
  order = codes "x" ∷ [];
  judge_id = codes "x";
}

-- Ann judges the cards of Bob and Cy, who might have played them the other way round.
abbrev others : List AnswerCard → List Player
others hand =
    record ann { id = codes "y"; name = codes "Bob"; is_judge = false; hand = hand }
    ∷ record ann { id = codes "z"; name = codes "Cy"; is_judge = false; hand = [] }
    ∷ []

abbrev played : Text → Text → Text → ℕ → Submission
played id player_id player_name at = record {
  id = id;
  player_id = player_id;
  player_name = player_name;
  answer = record { id = id; text = id; tier = []; uuid = [] };
  submitted_at = at;
  is_winner = false;
}

abbrev table : List Submission
table =
    played (codes "s1") (codes "y") (codes "Bob") 1
    ∷ played (codes "s2") (codes "z") (codes "Cy") 2
    ∷ []

abbrev swapped : List Submission
swapped =
    played (codes "s1") (codes "z") (codes "Cy") 1
    ∷ played (codes "s2") (codes "y") (codes "Bob") 2
    ∷ []

abbrev judged : Room
judged = record scored {
  phase = judging;
  players = ann ∷ others [];
  order = codes "x" ∷ codes "y" ∷ codes "z" ∷ [];
  submissions = table;
}

snapshot_hides_example :
    snapshot_for
      (codes "x")
      (record judged { players = ann ∷ others small_deck.answers; submissions = swapped })
    ≡ snapshot_for (codes "x") judged
unfolding has_submission text_discrete
snapshot_hides_example =
    snapshot_hides (codes "x") judged (ann ∷ others small_deck.answers) swapped
      ((refl, λ e. refl), ((refl, λ e. ground (arith, e)), ((refl, λ e. refl), tt)))
      (refl, (refl, tt)) (λ id. ground arith)

scored-IsSeated : IsSeated counting scored
unfolding new_room new_id
scored-IsSeated = record {
  known = refl;
  distinct = (tt, tt);
  limited = record {
    score_low = omega arith;
    score_high = omega arith;
    submit_low = omega arith;
    submit_high = omega arith;
    players_low = omega arith;
    players_high = omega arith;
    within = omega arith;
  };
  unused = λ k h. ((λ e. ground (arith, e)), tt);
}

leave-restore_room_example :
    restore_room counting
      (persisted_state (leave counting scored.judge_id scored).0)
      small_deck
      2000
      9
    ≢ ok scored
unfolding find_player new_room text_discrete
leave-restore_room_example =
    leave-restore_room counting scored ann scored-IsSeated refl refl
      (λ e. absurd (omega (arith, ap length e))) small_deck 2000 9 scored

abbrev hosted : Room
hosted = record scored { host_id = codes "x"; phase_seq = 4 }

handle-command_example : handle counting (ends (codes "guest")) hosted ≡ hosted
handle-command_example =
    handle-command counting (codes "guest") (ends (codes "guest")) hosted refl
      (λ e. absurd (omega (arith, ap length e)))

handle-stale_example : handle counting (deadline 3) hosted ≡ hosted
handle-stale_example = handle-stale counting (deadline 3) hosted (λ e. absurd (omega (arith, e)))

requests-IsAtomic_example :
    IsAtomic hosted (try_join counting (codes "Bo") hosted)
    × IsAtomic hosted (leave counting (codes "x") hosted)
    × IsAtomic hosted (attach (codes "x") (codes "t") 7 hosted)
    × IsAtomic hosted (submit_answer counting (codes "x") (codes "a1") hosted)
    × IsAtomic hosted (pick_winner (codes "x") (codes "s") hosted)
    × IsAtomic hosted (start_game counting (codes "x") hosted)
    × IsAtomic hosted (next_round counting (codes "x") hosted)
    × IsAtomic hosted (end_game (codes "x") hosted)
    × IsAtomic hosted (skip_prompt counting (codes "x") hosted)
    × IsAtomic hosted (play_again counting (codes "x") hosted)
    × IsAtomic hosted (update_settings counting (codes "x") none hosted)
requests-IsAtomic_example =
    requests-IsAtomic counting (codes "x") (codes "Bo") (codes "t") (codes "a1") (codes "s") 7 none
      hosted
