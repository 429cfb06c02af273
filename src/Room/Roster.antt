-- ===== src/Room/Roster.antt =====
-- backend/internal/realtime/room.go: the maps `players`, `submissions` and `clients` and the list
-- `order`, as the code reads and writes them.
use punchline.Base.{
  ℕ, ◌+◌, ◌==◌, Bool, false, ◌||◌, List, [], ◌∷◌, ◌++◌, Option, none, some, if◌then◌else◌, Text,
  same,
}
use punchline.Cards.Deck.{AnswerCard}
use punchline.Room.Types.{Player, Submission}

-- `r.players[id]`.
unfoldable pub find_player : Text → List Player → Option Player
find_player id [] = none
find_player id (p ∷ ps) = if same p.id id then some p else find_player id ps

-- `r.players[p.ID] = &p`, and a write through the pointer.
unfoldable pub put_player : Player → List Player → List Player
put_player p [] = p ∷ []
put_player p (q ∷ ps) = if same q.id p.id then p ∷ ps else q ∷ put_player p ps

-- `delete(r.players, id)`.
unfoldable pub delete_player : Text → List Player → List Player
delete_player id [] = []
delete_player id (p ∷ ps) = if same p.id id then ps else p ∷ delete_player id ps

-- The first position of an id in the order.
unfoldable pub index_of : Text → List Text → Option ℕ
index_of id [] = none
index_of id (j ∷ ids) =
    if same j id then some 0 else elim (index_of id ids) [ none ↦ none | some i ↦ some (i + 1) ]

-- `append(order[:index], order[index+1:]...)` at the first position of an id.
unfoldable pub remove_id : Text → List Text → List Text
remove_id id [] = []
remove_id id (j ∷ ids) = if same j id then ids else j ∷ remove_id id ids

-- `r.submissions[id]`.
unfoldable pub find_submission : Text → List Submission → Option Submission
find_submission id [] = none
find_submission id (s ∷ ss) = if same s.id id then some s else find_submission id ss

-- `r.submissions[s.ID] = s`.
unfoldable pub put_submission : Submission → List Submission → List Submission
put_submission s [] = s ∷ []
put_submission s (t ∷ ss) = if same t.id s.id then s ∷ ss else t ∷ put_submission s ss

-- `hasSubmissionLocked`, and the test of `submitAnswerLocked`.
unfoldable pub has_submission : Text → List Submission → Bool
has_submission id [] = false
has_submission id (s ∷ ss) = same s.player_id id || has_submission id ss

-- The loop of `removePlayerLocked` over the submissions: those that stay, and the cards of those
-- that are deleted.
unfoldable pub other_submissions : Text → List Submission → List Submission
other_submissions id [] = []
other_submissions id (s ∷ ss) =
    if same s.player_id id then other_submissions id ss else s ∷ other_submissions id ss

unfoldable pub played_by : Text → List Submission → List AnswerCard
played_by id [] = []
played_by id (s ∷ ss) = if same s.player_id id then s.answer ∷ played_by id ss else played_by id ss

-- The loops that give every played card back to its owner.
unfoldable pub return_cards : List Submission → List Player → List Player
unfolding find_player put_player
return_cards [] ps = ps
return_cards (s ∷ ss) ps = return_cards ss (elim (find_player s.player_id ps) [
  | none ↦ ps
  | some p ↦ put_player (record p { hand = p.hand ++ s.answer ∷ [] }) ps
])

-- `r.clients[id]`.
unfoldable pub find_client : Text → List (Text × List ℕ) → Option (List ℕ)
find_client id [] = none
find_client id ((j, conns) ∷ cs) = if same j id then some conns else find_client id cs

unfoldable pub put_client : Text → List ℕ → List (Text × List ℕ) → List (Text × List ℕ)
put_client id conns [] = (id, conns) ∷ []
put_client id conns ((j, old) ∷ cs) =
    if same j id then (id, conns) ∷ cs else (j, old) ∷ put_client id conns cs

unfoldable pub delete_client : Text → List (Text × List ℕ) → List (Text × List ℕ)
delete_client id [] = []
delete_client id ((j, old) ∷ cs) = if same j id then cs else (j, old) ∷ delete_client id cs

-- A set of connections.
unfoldable pub has_conn : ℕ → List ℕ → Bool
has_conn c [] = false
has_conn c (d ∷ ds) = d == c || has_conn c ds

unfoldable pub add_conn : ℕ → List ℕ → List ℕ
unfolding has_conn
add_conn c ds = if has_conn c ds then ds else c ∷ ds

unfoldable pub delete_conn : ℕ → List ℕ → List ℕ
delete_conn c [] = []
delete_conn c (d ∷ ds) = if d == c then ds else d ∷ delete_conn c ds
