-- ===== src/Telemetry.antt =====
-- The batching of card counters (backend/internal/telemetry/cards.go). The channel of events is a list,
-- oldest first; the database is a parameter, which answers an UPDATE with whether it failed. Where the
-- code ranges over a map, the order is that of the entries.
pub mod Counts
pub mod Accounts
use punchline.Base.{
  ℕ, ◌+◌, ◌&&◌, Bool, true, false, List, [], ◌∷◌, ◌++◌, Option, none, some, if◌then◌else◌, ltb,
  Text, codes, same, length, ◌==◌,
}
use punchline.Base.Int.{ℤ, pos, negsuc}

abbrev pub kind_prompt : Text
kind_prompt = codes "prompt"

abbrev pub kind_answer : Text
kind_answer = codes "answer"

abbrev pub metric_played : Text
metric_played = codes "played"

abbrev pub metric_skipped : Text
metric_skipped = codes "skipped"

abbrev pub metric_won : Text
metric_won = codes "won"

pub record Event : Type 0 where
  pub kind : Text
  pub uuid : Text
  pub metric : Text

-- The map from events to counts.
abbrev pub Pending : Type 0
Pending = List (Event × ℕ)

-- `CardRecorder`, with the capacity of its channel and the map of its goroutine.
pub record CardRecorder : Type 0 where
  pub events : List Event
  pub buffer : ℕ
  pub pending : Pending
  pub flushed : ℕ
  pub dropped : ℕ
  pub failed : ℕ

-- 4096 where `buffer <= 0`.
unfoldable pub buffer_or_default : ℤ → ℕ
buffer_or_default (pos n) = if n == 0 then 4096 else n
buffer_or_default (negsuc n) = 4096

-- `NewCardRecorder`, with a database.
unfoldable pub new_card_recorder : ℤ → CardRecorder
unfolding buffer_or_default
new_card_recorder buffer = record {
  events = [];
  buffer = buffer_or_default buffer;
  pending = [];
  flushed = 0;
  dropped = 0;
  failed = 0;
}

-- `record`: an event that does not fit in the channel is dropped.
unfoldable pub record_metric : Text → Text → Text → CardRecorder → CardRecorder
record_metric kind uuid metric r =
    if same uuid []
    then r
    else if ltb (length r.events) r.buffer
    then record r { events = r.events ++ record { kind = kind; uuid = uuid; metric = metric } ∷ [] }
    else record r { dropped = r.dropped + 1 }

unfoldable pub same_event : Event → Event → Bool
same_event e f = same e.kind f.kind && same e.uuid f.uuid && same e.metric f.metric

-- `pending[ev] += count`.
unfoldable pub add_pending : Event → ℕ → Pending → Pending
unfolding same_event
add_pending e n [] = (e, n) ∷ []
add_pending e n ((f, m) ∷ p) = if same_event f e then (f, m + n) ∷ p else (f, m) ∷ add_pending e n p

unfoldable pub add_all : List Event → Pending → Pending
unfolding add_pending
add_all [] p = p
add_all (e ∷ es) p = add_all es (add_pending e 1 p)

-- `drain`.
unfoldable pub drain : CardRecorder → CardRecorder
unfolding add_all
drain r = record r { events = []; pending = add_all r.events r.pending }

-- `columnFor`: the table and the column.
unfoldable pub column_for : Text → Text → Option (Text × Text)
column_for kind metric =
    if same kind kind_prompt && same metric metric_played
    then some (codes "prompt_cards", codes "times_played")
    else if same kind kind_prompt && same metric metric_skipped
    then some (codes "prompt_cards", codes "skip_count")
    else if same kind kind_answer && same metric metric_played
    then some (codes "answer_cards", codes "times_played")
    else if same kind kind_answer && same metric metric_won
    then some (codes "answer_cards", codes "win_count")
    else none

-- The counts of one kind and one metric.
pub record Group : Type 0 where
  pub kind : Text
  pub metric : Text
  pub counts : List (Text × ℕ)

-- `counts[uuid] += count`.
unfoldable pub add_uuid : Text → ℕ → List (Text × ℕ) → List (Text × ℕ)
add_uuid uuid n [] = (uuid, n) ∷ []
add_uuid uuid n ((u, m) ∷ counts) =
    if same u uuid then (u, m + n) ∷ counts else (u, m) ∷ add_uuid uuid n counts

-- `groups[k][ev.uuid] += count`.
unfoldable pub add_count : Event → ℕ → List Group → List Group
unfolding add_uuid
add_count e n [] = record { kind = e.kind; metric = e.metric; counts = (e.uuid, n) ∷ [] } ∷ []
add_count e n (g ∷ gs) =
    if same g.kind e.kind && same g.metric e.metric
    then record g { counts = add_uuid e.uuid n g.counts } ∷ gs
    else g ∷ add_count e n gs

unfoldable pub grouped : Pending → List Group → List Group
unfolding add_count
grouped [] gs = gs
grouped ((e, n) ∷ p) gs = grouped p (add_count e n gs)

unfoldable pub total_of : List (Text × ℕ) → ℕ
total_of [] = 0
total_of ((uuid, n) ∷ rest) = n + total_of rest

-- What happens to a recorder: the calls of the games and the cases of the loop of `Start`.
pub data RecorderStep : Type 0 where
  prompt_played prompt_skipped answer_played answer_won : (uuid : Text) → RecorderStep
  receives ticks stops : RecorderStep

module _ {D : Type 0} (exec : Text × Text → List (Text × ℕ) → D → D × Bool) where
  -- The count of the group, in `flushed` or in `failed`.
  unfoldable pub counted : ℕ → Bool → CardRecorder → CardRecorder
  counted n true r = record r { failed = r.failed + n }
  counted n false r = record r { flushed = r.flushed + n }

  -- One round of the second loop of `flush`.
  unfoldable pub flush_group : Group → Option (Text × Text) → CardRecorder × D → CardRecorder × D
  unfolding counted total_of
  flush_group g none (r, db) = (r, db)
  flush_group g (some column) (r, db) =
      let (db', err) = exec column g.counts db in (counted (total_of g.counts) err r, db')

  unfoldable pub flush_groups : List Group → CardRecorder × D → CardRecorder × D
  unfolding flush_group column_for
  flush_groups [] s = s
  flush_groups (g ∷ gs) s = flush_groups gs (flush_group g (column_for g.kind g.metric) s)

  -- `flush`.
  unfoldable pub flush : CardRecorder × D → CardRecorder × D
  unfolding flush_groups grouped
  flush (r, db) = flush_groups (grouped r.pending []) (record r { pending = [] }, db)

  unfoldable pub step : RecorderStep → CardRecorder × D → CardRecorder × D
  unfolding record_metric drain flush
  step (prompt_played uuid) (r, db) = (record_metric kind_prompt uuid metric_played r, db)
  step (prompt_skipped uuid) (r, db) = (record_metric kind_prompt uuid metric_skipped r, db)
  step (answer_played uuid) (r, db) = (record_metric kind_answer uuid metric_played r, db)
  step (answer_won uuid) (r, db) = (record_metric kind_answer uuid metric_won r, db)
  step receives (r, db) = (drain r, db)
  step ticks s = flush s
  step stops (r, db) = flush (drain r, db)

  unfoldable pub run : List RecorderStep → CardRecorder × D → CardRecorder × D
  unfolding step
  run [] s = s
  run (c ∷ cs) s = run cs (step c s)
