-- ===== src/Tests/Recorders.antt =====
-- A recorder whose database fails for the prompts.
use punchline.Base.{
  ℕ, ◌+◌, ◌≡◌, ◌≤◌, ltb, if◌then◌else◌, ◌++◌, arith, refl, Bool, List, [], ◌∷◌, Text, codes, same,
  length, text_discrete,
}
use punchline.Base.Int.{pos}
use punchline.Telemetry.{
  kind_answer, metric_won, RecorderStep, prompt_played, answer_won, receives, stops,
  new_card_recorder, run, step, record_metric, drain, add_all, add_pending, same_event, flush,
  grouped, add_count, flush_groups, flush_group, column_for, counted, total_of,
}
use punchline.Telemetry.Counts.{accounted}
use punchline.Telemetry.Accounts.{run-accounted, run-within, all_recorded}

abbrev answers_only : Text × Text → List (Text × ℕ) → ℕ → ℕ × Bool
answers_only column counts writes = (writes + 1, same (column.0) (codes "prompt_cards"))

abbrev evening : List RecorderStep
evening =
    prompt_played (codes "p1")
    ∷ answer_won (codes "a1")
    ∷ prompt_played []
    ∷ receives
    ∷ answer_won (codes "a1")
    ∷ stops
    ∷ []

run-accounted_example :
    accounted (run answers_only evening (new_card_recorder (pos 8), 0)).0
    ≡ all_recorded answers_only evening
run-accounted_example = run-accounted answers_only (pos 8) evening 0

run-within_example :
    let r = (run answers_only evening (new_card_recorder (pos 8), 0)).0 in
    let s = record_metric kind_answer (codes "a1") metric_won r in
    (length r.events ≤ 8)
    × (s ≡ (
        if ltb (length r.events) 8
        then record r {
          events =
              r.events
              ++ record { kind = kind_answer; uuid = codes "a1"; metric = metric_won } ∷ [];
        }
        else record r { dropped = r.dropped + 1 }))
run-within_example =
    run-within answers_only (pos 8) evening 0 kind_answer (codes "a1") metric_won
      (λ e. ground (arith, e))

evening-flushed : (run answers_only evening (new_card_recorder (pos 8), 0)).0.flushed ≡ 2
unfolding run step new_card_recorder record_metric drain add_all add_pending same_event flush
    grouped add_count flush_groups flush_group column_for counted total_of text_discrete
evening-flushed = refl
