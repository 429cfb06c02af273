-- ===== src/Manager/Newest.antt =====
-- The queue of states against the list of what it was given.
use punchline.Base.{
  ℕ, ◌≡◌, refl, ap, ◌∙◌, List, [], ◌∷◌, if◌then◌else◌, Text, same, arith, Option-cases, inl, inr,
  text_discrete,
}
use Prim.Native.Nat.{max}
use punchline.Base.Maps.{find, find-put}
use punchline.Room.Types.{PersistedRoomState}
use punchline.Manager.{Manager}
use punchline.Manager.Queue.{supersedes, enqueue_room_state, enqueue_all}
use punchline.Manager.Kept.{waiting}

-- The greatest revision of the states of a code, or what there was.
unfoldable pub greatest : Text → List PersistedRoomState → ℕ → ℕ
greatest code [] n = n
greatest code (s ∷ ss) n =
    let rest = greatest code ss n in if same s.code code then max s.revision rest else rest

enqueue-greatest :
    (code : Text) (s : PersistedRoomState) (m : Manager)
    → waiting code (enqueue_room_state s m)
      ≡ (if same s.code code then max s.revision (waiting code m) else waiting code m)
unfolding waiting enqueue_room_state supersedes
enqueue-greatest code s m = elim (text_discrete s.code code) [
  | yes h ↦ elim (Option-cases (find s.code m.pending_room_states)) [
    | inl e ↦ ground (arith, e, h, find-put code s.code s m.pending_room_states)
    | inr (t, e) ↦ ground (arith, e, h, find-put code s.code s m.pending_room_states)
  ]
  | no n ↦ ground (arith, n, find-put code s.code s m.pending_room_states)
]

-- Whatever states the rooms give to the queue, and in whatever order, the revision that waits for a
-- code is the greatest of those that were given under the code and of the one that waited before,
-- where none counts as 0.
pub enqueue_all-greatest :
    (code : Text) (ss : List PersistedRoomState) (m : Manager)
    → waiting code (enqueue_all ss m) ≡ greatest code ss (waiting code m)
unfolding enqueue_all greatest
enqueue_all-greatest code [] m = refl
enqueue_all-greatest code (s ∷ ss) m =
    enqueue-greatest code s (enqueue_all ss m)
    ∙ ap (λ n. if same s.code code then max s.revision n else n) (enqueue_all-greatest code ss m)
