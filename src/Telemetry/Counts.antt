-- ===== src/Telemetry/Counts.antt =====
-- The counts of the recorder (backend/internal/telemetry/cards.go), operation by operation.
use punchline.Base.{
  ℕ, ◌+◌, ◌≤◌, ◌≡◌, ◌≢◌, List, [], ◌∷◌, ◌++◌, none, if◌then◌else◌, Text, same, length, arith, All,
  length-append,
}
use punchline.Telemetry.{
  Event, Pending, CardRecorder, record_metric, add_pending, add_all, drain, column_for, Group,
  add_uuid, add_count, grouped, total_of,
}

unfoldable pub total_pending : Pending → ℕ
total_pending [] = 0
total_pending ((e, n) ∷ p) = n + total_pending p

abbrev pub total_groups : List Group → ℕ
total_groups [] = 0
total_groups (g ∷ gs) = total_of g.counts + total_groups gs

total-add_pending :
    (e : Event) (n : ℕ) (p : Pending) → total_pending (add_pending e n p) ≡ total_pending p + n
unfolding total_pending add_pending
total-add_pending e n [] = omega arith
total-add_pending e n ((f, m) ∷ p) = ground (arith, total-add_pending e n p)

total-add_all :
    (es : List Event) (p : Pending) → total_pending (add_all es p) ≡ total_pending p + length es
unfolding add_all
total-add_all [] p = omega arith
total-add_all (e ∷ es) p =
    omega (arith, total-add_all es (add_pending e 1 p), total-add_pending e 1 p)

total-add_uuid :
    (uuid : Text) (n : ℕ) (cs : List (Text × ℕ)) → total_of (add_uuid uuid n cs) ≡ total_of cs + n
unfolding total_of add_uuid
total-add_uuid uuid n [] = omega arith
total-add_uuid uuid n ((u, m) ∷ cs) = ground (arith, total-add_uuid uuid n cs)

total-add_count :
    (e : Event) (n : ℕ) (gs : List Group) → total_groups (add_count e n gs) ≡ total_groups gs + n
unfolding add_count total_of
total-add_count e n [] = omega arith
total-add_count e n (g ∷ gs) =
    ground (arith, total-add_uuid e.uuid n g.counts, total-add_count e n gs)

pub total-grouped :
    (p : Pending) (gs : List Group)
    → total_groups (grouped p gs) ≡ total_groups gs + total_pending p
unfolding grouped total_pending
total-grouped [] gs = omega arith
total-grouped ((e, n) ∷ p) gs =
    omega (arith, total-grouped p (add_count e n gs), total-add_count e n gs)

-- There is a column for the kind and the metric.
unfoldable pub IsKnown : Text → Text → Type 0
IsKnown kind metric = column_for kind metric ≢ none

abbrev pub KnownEvent : Event → Type 0
KnownEvent e = IsKnown e.kind e.metric

abbrev pub KnownGroup : Group → Type 0
KnownGroup g = IsKnown g.kind g.metric

abbrev pub AllPending : Pending → Type 0
AllPending = All (λ x. KnownEvent (x.0))

add_pending-AllPending :
    (e : Event) (n : ℕ) (p : Pending) → KnownEvent e → AllPending p → AllPending (add_pending e n p)
unfolding add_pending
add_pending-AllPending e n [] k h = (k, tt)
add_pending-AllPending e n ((f, m) ∷ p) k h =
    ground (arith, h.0, h.1, add_pending-AllPending e n p k h.1)

add_all-AllPending :
    (es : List Event) (p : Pending) → All KnownEvent es → AllPending p → AllPending (add_all es p)
unfolding add_all
add_all-AllPending [] p k h = h
add_all-AllPending (e ∷ es) p k h =
    add_all-AllPending es (add_pending e 1 p) k.1 (add_pending-AllPending e 1 p k.0 h)

add_count-All :
    (e : Event) (n : ℕ) (gs : List Group)
    → KnownEvent e
    → All KnownGroup gs
    → All KnownGroup (add_count e n gs)
unfolding add_count
add_count-All e n [] k h = (k, tt)
add_count-All e n (g ∷ gs) k h = ground (arith, h.0, h.1, add_count-All e n gs k h.1)

pub grouped-All :
    (p : Pending) (gs : List Group)
    → AllPending p
    → All KnownGroup gs
    → All KnownGroup (grouped p gs)
unfolding grouped
grouped-All [] gs k h = h
grouped-All ((e, n) ∷ p) gs k h = grouped-All p (add_count e n gs) k.1 (add_count-All e n gs k.0 h)

-- Every event that was counted or still waits.
unfoldable pub accounted : CardRecorder → ℕ
accounted r = r.flushed + r.dropped + r.failed + length r.events + total_pending r.pending

-- Nothing waits under an unknown metric, and the channel is within its capacity.
pub record IsTidy (r : CardRecorder) : Type 0 where
  pub queued : All KnownEvent r.events
  pub batched : AllPending r.pending
  pub within : length r.events ≤ r.buffer

All-append :
    (es : List Event) (e : Event) → All KnownEvent es → KnownEvent e → All KnownEvent (es ++ e ∷ [])
All-append [] e h k = (k, tt)
All-append (f ∷ es) e h k = (h.0, All-append es e h.1 k)

abbrev pub one_unless : Text → ℕ
one_unless uuid = if same uuid [] then 0 else 1

pub record_metric-accounted :
    (kind uuid metric : Text) (r : CardRecorder)
    → accounted (record_metric kind uuid metric r) ≡ accounted r + one_unless uuid
unfolding record_metric accounted
record_metric-accounted kind uuid metric r =
    ground
      (arith, length-append r.events (record { kind = kind; uuid = uuid; metric = metric } ∷ []))

pub record_metric-IsTidy :
    (kind uuid metric : Text) (r : CardRecorder)
    → IsKnown kind metric
    → IsTidy r
    → IsTidy (record_metric kind uuid metric r)
unfolding record_metric
record_metric-IsTidy kind uuid metric r k v =
    let e : Event = record { kind = kind; uuid = uuid; metric = metric } in
    ground (arith, v, length-append r.events (e ∷ []), All-append r.events e v.queued k)

pub drain-accounted : (r : CardRecorder) → accounted (drain r) ≡ accounted r
unfolding drain accounted
drain-accounted r = omega (arith, total-add_all r.events r.pending)

pub drain-IsTidy : (r : CardRecorder) → IsTidy r → IsTidy (drain r)
unfolding drain
drain-IsTidy r v = record {
  queued = tt;
  batched = add_all-AllPending r.events r.pending v.queued v.batched;
  within = omega arith;
}
