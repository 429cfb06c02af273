-- ===== src/Store/Order.antt =====
-- The order in which the states of a room are written.
use punchline.Base.{
  ℕ, ◌≡◌, ◌≢◌, refl, false, List, [], ◌∷◌, Option, none, some, if◌then◌else◌, ltb, Text, same,
  arith, Option-cases, inl, inr,
}
use punchline.Base.Maps.{find, find-put}
use punchline.Room.Types.{PersistedRoomState}
use punchline.Room.Restore.{normalize_room_code}
use punchline.Store.{States, save_room_state, load_room_state, save_all, is_newer}

abbrev pub revision_of : Option PersistedRoomState → Option ℕ
revision_of none = none
revision_of (some s) = some s.revision

abbrev newer : Option ℕ → ℕ → ℕ
newer none n = n
newer (some m) n = if ltb n m then m else n

-- The greatest revision among what is there and the states of a code.
unfoldable pub newest : Text → Option ℕ → List PersistedRoomState → Option ℕ
newest code m [] = m
newest code m (s ∷ ss) =
    newest code (if same (normalize_room_code s.code) code then some (newer m s.revision) else m) ss

find-save :
    (code : Text) (s : PersistedRoomState) (states : States)
    → code ≢ []
    → revision_of (find code (save_room_state false s states).0) ≡ (
        if same (normalize_room_code s.code) code
        then some (newer (revision_of (find code states)) s.revision)
        else revision_of (find code states))
unfolding save_room_state is_newer
find-save code s states h = elim (Option-cases (find (normalize_room_code s.code) states)) [
  | inl e ↦ ground (
    arith,
    e,
    h,
    find-put code (normalize_room_code s.code) (record s { code = normalize_room_code s.code })
        states,
  )
  | inr (t, e) ↦ ground (
    arith,
    e,
    h,
    find-put code (normalize_room_code s.code) (record s { code = normalize_room_code s.code })
        states,
  )
]

save_all-newest_from :
    (code : Text) (ss : List PersistedRoomState) (states : States)
    → code ≢ []
    → revision_of (find code (save_all ss states)) ≡ newest code (revision_of (find code states)) ss
unfolding save_all newest
save_all-newest_from code [] states h = refl
save_all-newest_from code (s ∷ ss) states h =
    rw⁻¹ (find-save code s states h)
      (save_all-newest_from code ss (save_room_state false s states).0 h)

-- Write states to an empty store, in any order: what is loaded for a code that is not empty is the
-- greatest revision among the states of that code, or nothing if there are none.
pub save_all-newest :
    (code : Text) (ss : List PersistedRoomState)
    → normalize_room_code code ≢ []
    → revision_of (load_room_state false code (save_all ss [])).0
      ≡ newest (normalize_room_code code) none ss
unfolding load_room_state find
save_all-newest code ss h = ground (arith, save_all-newest_from (normalize_room_code code) ss [] h)
