-- ===== src/Telemetry/Accounts.antt =====
-- What the recorder's counters say after any history.
use punchline.Base.Int.{ℤ, pos, negsuc}
use punchline.Base.{
  ℕ, zero, suc, if◌then◌else◌, ltb, ◌++◌, ◌+◌, ◌≤◌, ◌≡◌, ◌≢◌, refl, ◌∙◌, Bool, true, false, List,
  [], ◌∷◌, Option, none, some, Text, length, arith, text_discrete, All,
}
use punchline.Telemetry.{
  CardRecorder, new_card_recorder, record_metric, drain, column_for, Group, grouped, total_of,
  counted, flush_group, flush_groups, flush, RecorderStep, prompt_played, prompt_skipped,
  answer_played, answer_won, receives, ticks, stops, step, run, kind_prompt, kind_answer,
  metric_played, metric_skipped, metric_won,
}
use punchline.Telemetry.Counts.{
  accounted, IsTidy, IsKnown, KnownGroup, total_groups, total_pending, total-grouped, grouped-All,
  one_unless, record_metric-accounted, record_metric-IsTidy, drain-accounted, drain-IsTidy,
}

module _ {D : Type 0} (exec : Text × Text → List (Text × ℕ) → D → D × Bool) where
  counted-accounted :
      (n : ℕ) (err : Bool) (r : CardRecorder) → accounted (counted exec n err r) ≡ accounted r + n
  unfolding counted accounted
  counted-accounted n true r = omega arith
  counted-accounted n false r = omega arith

  counted-IsTidy :
      (n : ℕ) (err : Bool) (r : CardRecorder) → IsTidy r → IsTidy (counted exec n err r)
  unfolding counted
  counted-IsTidy n true r v = record { queued = v.queued; batched = v.batched; within = v.within }
  counted-IsTidy n false r v = record { queued = v.queued; batched = v.batched; within = v.within }

  flush_group-accounted :
      (g : Group) (o : Option (Text × Text)) (s : CardRecorder × D)
      → o ≢ none
      → accounted (flush_group exec g o s).0 ≡ accounted s.0 + total_of g.counts
  unfolding flush_group
  flush_group-accounted g none s k = absurd (k refl)
  flush_group-accounted g (some c) (r, db) k =
      counted-accounted (total_of g.counts) (exec c g.counts db).1 r

  flush_group-IsTidy :
      (g : Group) (o : Option (Text × Text)) (s : CardRecorder × D)
      → IsTidy s.0
      → IsTidy (flush_group exec g o s).0
  unfolding flush_group
  flush_group-IsTidy g none s v = v
  flush_group-IsTidy g (some c) (r, db) v =
      counted-IsTidy (total_of g.counts) (exec c g.counts db).1 r v

  flush_groups-accounted :
      (gs : List Group) (s : CardRecorder × D)
      → All KnownGroup gs
      → accounted (flush_groups exec gs s).0 ≡ accounted s.0 + total_groups gs
  unfolding flush_groups IsKnown
  flush_groups-accounted [] s k = omega arith
  flush_groups-accounted (g ∷ gs) s k = omega (
    arith,
    flush_groups-accounted gs (flush_group exec g (column_for g.kind g.metric) s) k.1,
    flush_group-accounted g (column_for g.kind g.metric) s k.0,
  )

  flush_groups-IsTidy :
      (gs : List Group) (s : CardRecorder × D) → IsTidy s.0 → IsTidy (flush_groups exec gs s).0
  unfolding flush_groups
  flush_groups-IsTidy [] s v = v
  flush_groups-IsTidy (g ∷ gs) s v =
      flush_groups-IsTidy gs _ (flush_group-IsTidy g (column_for g.kind g.metric) s v)

  without_pending :
      (r : CardRecorder)
      → accounted (record r { pending = [] }) + total_pending r.pending ≡ accounted r
  unfolding accounted total_pending
  without_pending r = omega arith

  flush-accounted : (s : CardRecorder × D) → IsTidy s.0 → accounted (flush exec s).0 ≡ accounted s.0
  unfolding flush
  flush-accounted (r, db) v = omega (
    arith,
    flush_groups-accounted (grouped r.pending []) (record r { pending = [] }, db)
        (grouped-All r.pending [] v.batched tt),
    total-grouped r.pending [],
    without_pending r,
  )

  flush-IsTidy : (s : CardRecorder × D) → IsTidy s.0 → IsTidy (flush exec s).0
  unfolding flush
  flush-IsTidy (r, db) v =
      flush_groups-IsTidy (grouped r.pending []) (record r { pending = [] }, db)
        (record { queued = v.queued; batched = tt; within = v.within })

  -- The events of cards from the database.
  abbrev pub recorded : RecorderStep → ℕ
  recorded (prompt_played uuid) = one_unless uuid
  recorded (prompt_skipped uuid) = one_unless uuid
  recorded (answer_played uuid) = one_unless uuid
  recorded (answer_won uuid) = one_unless uuid
  recorded receives = 0
  recorded ticks = 0
  recorded stops = 0

  abbrev pub all_recorded : List RecorderStep → ℕ
  all_recorded [] = 0
  all_recorded (c ∷ cs) = recorded c + all_recorded cs

  step-accounted :
      (c : RecorderStep) (s : CardRecorder × D)
      → IsTidy s.0
      → accounted (step exec c s).0 ≡ accounted s.0 + recorded c
  unfolding step
  step-accounted (prompt_played uuid) (r, db) v =
      record_metric-accounted kind_prompt uuid metric_played r
  step-accounted (prompt_skipped uuid) (r, db) v =
      record_metric-accounted kind_prompt uuid metric_skipped r
  step-accounted (answer_played uuid) (r, db) v =
      record_metric-accounted kind_answer uuid metric_played r
  step-accounted (answer_won uuid) (r, db) v = record_metric-accounted kind_answer uuid metric_won r
  step-accounted receives (r, db) v = omega (arith, drain-accounted r)
  step-accounted ticks s v = omega (arith, flush-accounted s v)
  step-accounted stops (r, db) v =
      omega (arith, flush-accounted (drain r, db) (drain-IsTidy r v), drain-accounted r)

  step-IsTidy : (c : RecorderStep) (s : CardRecorder × D) → IsTidy s.0 → IsTidy (step exec c s).0
  unfolding step IsKnown column_for text_discrete
  step-IsTidy (prompt_played uuid) (r, db) v =
      record_metric-IsTidy kind_prompt uuid metric_played r (λ e. cc) v
  step-IsTidy (prompt_skipped uuid) (r, db) v =
      record_metric-IsTidy kind_prompt uuid metric_skipped r (λ e. cc) v
  step-IsTidy (answer_played uuid) (r, db) v =
      record_metric-IsTidy kind_answer uuid metric_played r (λ e. cc) v
  step-IsTidy (answer_won uuid) (r, db) v =
      record_metric-IsTidy kind_answer uuid metric_won r (λ e. cc) v
  step-IsTidy receives (r, db) v = drain-IsTidy r v
  step-IsTidy ticks s v = flush-IsTidy s v
  step-IsTidy stops (r, db) v = flush-IsTidy (drain r, db) (drain-IsTidy r v)

  run-IsTidy :
      (cs : List RecorderStep) (s : CardRecorder × D) → IsTidy s.0 → IsTidy (run exec cs s).0
  unfolding run
  run-IsTidy [] s v = v
  run-IsTidy (c ∷ cs) s v = run-IsTidy cs (step exec c s) (step-IsTidy c s v)

  run-accounted_from :
      (cs : List RecorderStep) (s : CardRecorder × D)
      → IsTidy s.0
      → accounted (run exec cs s).0 ≡ accounted s.0 + all_recorded cs
  unfolding run
  run-accounted_from [] s v = omega arith
  run-accounted_from (c ∷ cs) s v =
      omega (arith, run-accounted_from cs (step exec c s) (step-IsTidy c s v), step-accounted c s v)

  new-IsTidy : (buffer : ℤ) → IsTidy (new_card_recorder buffer)
  unfolding new_card_recorder
  new-IsTidy buffer = record { queued = tt; batched = tt; within = omega arith }

  -- Whatever the database answers, after every history of a new recorder the events that were written,
  -- dropped, failed or still wait are together as many as the events that were recorded of cards with
  -- an id: none is counted twice and none is forgotten.
  pub run-accounted :
      (buffer : ℤ) (cs : List RecorderStep) (db : D)
      → accounted (run exec cs (new_card_recorder buffer, db)).0 ≡ all_recorded cs
  unfolding accounted total_pending new_card_recorder
  run-accounted buffer cs db =
      omega (arith, run-accounted_from cs (new_card_recorder buffer, db) (new-IsTidy buffer))

  buffer-flush_group :
      (g : Group) (o : Option (Text × Text)) (s : CardRecorder × D)
      → (flush_group exec g o s).0.buffer ≡ s.0.buffer
  unfolding flush_group counted
  buffer-flush_group g none s = refl
  buffer-flush_group g (some c) (r, db) =
      buffer_counted (total_of g.counts) (exec c g.counts db).1 r
    where
      buffer_counted :
          (n : ℕ) (err : Bool) (r : CardRecorder) → (counted exec n err r).buffer ≡ r.buffer
      buffer_counted n true r = refl
      buffer_counted n false r = refl

  buffer-flush_groups :
      (gs : List Group) (s : CardRecorder × D) → (flush_groups exec gs s).0.buffer ≡ s.0.buffer
  unfolding flush_groups
  buffer-flush_groups [] s = refl
  buffer-flush_groups (g ∷ gs) s =
      buffer-flush_groups gs _ ∙ buffer-flush_group g (column_for g.kind g.metric) s

  buffer-step : (c : RecorderStep) (s : CardRecorder × D) → (step exec c s).0.buffer ≡ s.0.buffer
  unfolding step record_metric drain flush
  buffer-step (prompt_played uuid) (r, db) = ground arith
  buffer-step (prompt_skipped uuid) (r, db) = ground arith
  buffer-step (answer_played uuid) (r, db) = ground arith
  buffer-step (answer_won uuid) (r, db) = ground arith
  buffer-step receives (r, db) = refl
  buffer-step ticks (r, db) =
      buffer-flush_groups (grouped r.pending []) (record r { pending = [] }, db)
  buffer-step stops (r, db) =
      buffer-flush_groups (grouped (drain r).pending []) (record (drain r) { pending = [] }, db)

  buffer-run :
      (cs : List RecorderStep) (s : CardRecorder × D) → (run exec cs s).0.buffer ≡ s.0.buffer
  unfolding run
  buffer-run [] s = refl
  buffer-run (c ∷ cs) s = buffer-run cs (step exec c s) ∙ buffer-step c s

  -- How many events the channel is to hold.
  abbrev pub capacity : ℤ → ℕ
  capacity (negsuc n) = 4096
  capacity (pos zero) = 4096
  capacity (pos (suc n)) = suc n

  new_card_recorder-capacity : (buffer : ℤ) → (new_card_recorder buffer).buffer ≡ capacity buffer
  unfolding new_card_recorder
  new_card_recorder-capacity (negsuc n) = refl
  new_card_recorder-capacity (pos zero) = refl
  new_card_recorder-capacity (pos (suc n)) = ground arith

  -- After every history of a new recorder, the channel holds no more events than it was made for, 4096
  -- where no capacity above zero was given; and an event of a card with an id is put at its end as
  -- long as it holds fewer, and is counted as dropped, with the channel as it was, when it holds
  -- that many.
  pub run-within :
      (buffer : ℤ) (cs : List RecorderStep) (db : D) (kind uuid metric : Text)
      → uuid ≢ []
      → let r = (run exec cs (new_card_recorder buffer, db)).0 in
        let s = record_metric kind uuid metric r in
        (length r.events ≤ capacity buffer)
        × (s ≡ (
            if ltb (length r.events) (capacity buffer)
            then record r {
              events = r.events ++ record { kind = kind; uuid = uuid; metric = metric } ∷ [];
            }
            else record r { dropped = r.dropped + 1 }))
  unfolding record_metric text_discrete
  run-within buffer cs db kind uuid metric n =
      let s : CardRecorder × D = (new_card_recorder buffer, db) in
      let k = buffer-run cs s ∙ new_card_recorder-capacity buffer in
      (omega (arith, (run-IsTidy cs s (new-IsTidy buffer)).within, k), ground (arith, k, n))
