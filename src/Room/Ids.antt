-- ===== src/Room/Ids.antt =====
-- The ids of a room's players, and what the operations of Roster do to them.
use punchline.Base.{
  ◌≡◌, ◌≢◌, refl, sym, ◌∙◌, List, [], ◌∷◌, ◌++◌, map, Text, arith, text_discrete, some, inl, inr,
  subst, length, ◌≤◌, Option-cases,
}
use punchline.Room.Types.{Player, Submission}
use punchline.Room.Roster.{find_player, put_player, delete_player, remove_id, return_cards}

abbrev pub ids : List Player → List Text
ids = map (λ p. p.id)

-- No element of the list is the id.
abbrev pub Fresh : Text → List Text → Type 0
Fresh id [] = Unit {0}
Fresh id (j ∷ js) = (j ≢ id) × Fresh id js

abbrev pub Distinct : List Text → Type 0
Distinct [] = Unit {0}
Distinct (j ∷ js) = Fresh j js × Distinct js

-- The id is in the list.
pub data In (id : Text) : List Text → Type 0 where
  here : {j : Text} {js : List Text} → j ≡ id → In id (j ∷ js)
  there : {j : Text} {js : List Text} → In id js → In id (j ∷ js)

pub ids-delete_player :
    (id : Text) (ps : List Player) → ids (delete_player id ps) ≡ remove_id id (ids ps)
unfolding delete_player remove_id
ids-delete_player id [] = refl
ids-delete_player id (p ∷ ps) = ground (arith, ids-delete_player id ps)

pub find_player-id :
    (id : Text) (p : Player) (ps : List Player) → find_player id ps ≡ some p → p.id ≡ id
unfolding find_player
find_player-id id p [] h = cc
find_player-id id p (x ∷ ps) h = ground (arith, find_player-id id p ps)

-- A write to a player that is there keeps the ids.
pub ids-put_player :
    (id : Text) (q p : Player) (ps : List Player)
    → find_player id ps ≡ some q
    → p.id ≡ q.id
    → ids (put_player p ps) ≡ ids ps
unfolding find_player put_player
ids-put_player id q p [] h e = cc
ids-put_player id q p (x ∷ ps) h e =
    ground (arith, ids-put_player id q p ps, find_player-id id q (x ∷ ps) h)

-- A player that is not there is added at the end.
pub ids-put_player_new :
    (p : Player) (ps : List Player)
    → Fresh p.id (ids ps)
    → ids (put_player p ps) ≡ ids ps ++ p.id ∷ []
unfolding put_player
ids-put_player_new p [] h = refl
ids-put_player_new p (x ∷ ps) h = ground (arith, ids-put_player_new p ps)

pub Fresh-append : (js : List Text) (id j : Text) → Fresh j js → id ≢ j → Fresh j (js ++ id ∷ [])
Fresh-append [] id j f h = (h, tt)
Fresh-append (k ∷ js) id j f h = (f.0, Fresh-append js id j f.1 h)

pub Distinct-append :
    (js : List Text) (id : Text) → Distinct js → Fresh id js → Distinct (js ++ id ∷ [])
Distinct-append [] id d f = (tt, tt)
Distinct-append (j ∷ js) id d f =
    (Fresh-append js id j d.0 (λ e. f.0 (sym e)), Distinct-append js id d.1 f.1)

pub Fresh-remove_id : (id j : Text) (js : List Text) → Fresh j js → Fresh j (remove_id id js)
unfolding remove_id
Fresh-remove_id id j [] f = f
Fresh-remove_id id j (k ∷ js) f = ground (arith, Fresh-remove_id id j js f.1)

pub Distinct-remove_id : (id : Text) (js : List Text) → Distinct js → Distinct (remove_id id js)
unfolding remove_id
Distinct-remove_id id [] d = d
Distinct-remove_id id (j ∷ js) d =
    ground (arith, Distinct-remove_id id js d.1, Fresh-remove_id id j js d.0)

pub length-remove_id-le : (id : Text) (js : List Text) → length (remove_id id js) ≤ length js
unfolding remove_id
length-remove_id-le id [] = omega arith
length-remove_id-le id (j ∷ js) = ground (arith, length-remove_id-le id js)

-- The players that the ids name are there.
pub find_player_of_In :
    (id : Text) (ps : List Player) → In id (ids ps) → (p : Player) × (find_player id ps ≡ some p)
unfolding find_player
find_player_of_In id [] h = elim h [ ]
find_player_of_In id (p ∷ ps) (here e) = (p, ground arith)
find_player_of_In id (p ∷ ps) (there h) = elim (text_discrete p.id id) [
  | yes e ↦ (p, ground arith)
  | no e ↦ let (q, f) = find_player_of_In id ps h in (q, ground arith)
]

find_player-In :
    (id : Text) (p : Player) (ps : List Player) → find_player id ps ≡ some p → In id (ids ps)
unfolding find_player
find_player-In id p [] h = cc
find_player-In id p (q ∷ ps) h = elim (text_discrete q.id id) [
  | yes e ↦ here e
  | no e ↦ there (find_player-In id p ps (ground arith))
]

-- Every id of the list names a player.
abbrev pub AllKnown : List Player → List Text → Type 0
AllKnown ps js = (id : Text) → In id js → (p : Player) × (find_player id ps ≡ some p)

pub ids-AllKnown : (ps : List Player) (js : List Text) → ids ps ≡ js → AllKnown ps js
ids-AllKnown ps js e id h = find_player_of_In id ps (subst (In id) (sym e) h)

-- Which ids name a player depends on the ids alone.
pub same-AllKnown :
    (ps qs : List Player) (js : List Text) → ids ps ≡ ids qs → AllKnown qs js → AllKnown ps js
same-AllKnown ps qs js e k id h =
    let (q, f) = k id h in
    find_player_of_In id ps (subst (In id) (sym e) (find_player-In id q qs f))

-- Giving cards back keeps the ids.
pub ids-return_cards : (ss : List Submission) (ps : List Player) → ids (return_cards ss ps) ≡ ids ps
unfolding return_cards
ids-return_cards [] ps = refl
ids-return_cards (s ∷ ss) ps = elim (Option-cases (find_player s.player_id ps)) [
  | inl e ↦ rw (e, return_cards) (ids-return_cards ss ps)
  | inr (p, e) ↦
      rw (e, return_cards)
        (ids-return_cards ss (put_player (record p { hand = p.hand ++ s.answer ∷ [] }) ps)
          ∙ ids-put_player s.player_id p _ ps e refl)
]
