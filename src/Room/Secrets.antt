-- ===== src/Room/Secrets.antt =====
-- What a client cannot learn from the snapshots that it is sent.
use punchline.Base.{
  ◌≡◌, refl, sym, ap, List, [], ◌∷◌, Option, none, some, Text, arith, text_discrete, holds, ◌∙◌,
  if◌then◌else◌,
}
use punchline.Room.Types.{
  Phase, lobby, submitting, judging, scoring, finished, Player, Submission, Room,
}
use punchline.Room.Roster.{find_player, has_submission}
use punchline.Base.Sorts.{sort_by}
use punchline.Room.Snapshot.{
  view_player, view_players, redact, redact_all, submitted_before, snapshot_of, snapshot_for,
}

-- Two players that differ in nothing but the hand, and not in that if they are the viewer.
abbrev pub Alike : Text → Player → Player → Type 0
Alike viewer p q = (q ≡ record p { hand = q.hand }) × (p.id ≡ viewer → q ≡ p)

abbrev pub AllAlike : Text → List Player → List Player → Type 0
AllAlike viewer [] [] = Unit {0}
AllAlike viewer (p ∷ ps) (q ∷ qs) = Alike viewer p q × AllAlike viewer ps qs
AllAlike viewer _ _ = ⊥

-- Two submissions that differ at most in what the phase hides: the card and its author while answers
-- are taken, the author while the judge decides.
abbrev pub Hidden : Phase → Submission → Submission → Type 0
Hidden submitting s t =
    t ≡ record s { answer = t.answer; player_id = t.player_id; player_name = t.player_name }
Hidden judging s t = t ≡ record s { player_id = t.player_id; player_name = t.player_name }
Hidden _ s t = t ≡ s

abbrev pub AllHidden : Phase → List Submission → List Submission → Type 0
AllHidden phase [] [] = Unit {0}
AllHidden phase (s ∷ ss) (t ∷ ts) = Hidden phase s t × AllHidden phase ss ts
AllHidden phase _ _ = ⊥

-- The players with a submission are the same, which a snapshot does show.
abbrev pub SameAuthors : List Submission → List Submission → Type 0
SameAuthors ss ts = (id : Text) → has_submission id ts ≡ has_submission id ss

Hidden-redact :
    (phase : Phase) (s t : Submission) → Hidden phase s t → redact phase t ≡ redact phase s
unfolding redact
Hidden-redact submitting s t h = ap (λ u. redact submitting u) h
Hidden-redact judging s t h = ap (λ u. redact judging u) h
Hidden-redact lobby s t h = h
Hidden-redact scoring s t h = h
Hidden-redact finished s t h = h

AllHidden-redact_all :
    (phase : Phase) (ss ts : List Submission)
    → AllHidden phase ss ts
    → redact_all phase ts ≡ redact_all phase ss
unfolding redact_all
AllHidden-redact_all phase [] [] h = refl
AllHidden-redact_all phase [] (t ∷ ts) h = absurd h
AllHidden-redact_all phase (s ∷ ss) [] h = absurd h
AllHidden-redact_all phase (s ∷ ss) (t ∷ ts) h =
    cc (Hidden-redact phase s t h.0, AllHidden-redact_all phase ss ts h.1)

-- What is found under an id in two lists of players that are alike.
abbrev SameFind : Text → Option Player → Option Player → Type 0
SameFind viewer none none = Unit {0}
SameFind viewer (some p) (some q) = Alike viewer p q
SameFind viewer _ _ = ⊥

found :
    {viewer id : Text} {p q : Player} (m n : Option Player) (x : Dec (p.id ≡ id))
    (y : Dec (q.id ≡ id))
    → q.id ≡ p.id
    → Alike viewer p q
    → SameFind viewer m n
    → SameFind viewer (if holds x then some p else m) (if holds y then some q else n)
found m n (yes _) (yes _) s h k = h
found m n (no _) (no _) s h k = k
found m n (yes e) (no f) s h k = absurd (f (s ∙ e))
found m n (no f) (yes e) s h k = absurd (f (sym s ∙ e))

AllAlike-find :
    (viewer id : Text) (ps qs : List Player)
    → AllAlike viewer ps qs
    → SameFind viewer (find_player id ps) (find_player id qs)
unfolding find_player
AllAlike-find viewer id [] [] h = tt
AllAlike-find viewer id [] (q ∷ qs) h = absurd h
AllAlike-find viewer id (p ∷ ps) [] h = absurd h
AllAlike-find viewer id (p ∷ ps) (q ∷ qs) h =
    found _ _ (text_discrete p.id id) (text_discrete q.id id) (ap (λ u. u.id) h.0.0) h.0
      (AllAlike-find viewer id ps qs h.1)

Alike-view :
    (viewer : Text) (ss ts : List Submission) (p q : Player)
    → Alike viewer p q
    → (has_submission p.id ts ≡ has_submission p.id ss)
    → view_player viewer ts q ≡ view_player viewer ss p
unfolding view_player
Alike-view viewer ss ts p q h e = elim (text_discrete p.id viewer) [
  | yes i ↦ rw (h.1 i, e)
  | no i ↦ ap (λ u. view_player viewer ts u) h.0 ∙ ground (arith, e, i)
]

SameFind-view :
    (viewer : Text) (ss ts : List Submission) (m n : Option Player) (f g : Option (List Player))
    → ((id : Text) → has_submission id ts ≡ has_submission id ss)
    → SameFind viewer m n
    → g ≡ f
    → (elim n [
      | none ↦ none
      | some q ↦ elim g [ none ↦ none | some rest ↦ some (view_player viewer ts q ∷ rest) ]
    ])
      ≡ (elim m [
        | none ↦ none
        | some p ↦ elim f [ none ↦ none | some rest ↦ some (view_player viewer ss p ∷ rest) ]
      ])
SameFind-view viewer ss ts none none f g e h k = refl
SameFind-view viewer ss ts none (some q) f g e h k = absurd h
SameFind-view viewer ss ts (some p) none f g e h k = absurd h
SameFind-view viewer ss ts (some p) (some q) f g e h k =
    rw k
      (elim f
        as (λ f.
          (elim f [ none ↦ none | some rest ↦ some (view_player viewer ts q ∷ rest) ])
          ≡ (elim f [ none ↦ none | some rest ↦ some (view_player viewer ss p ∷ rest) ])) [
            | none ↦ refl
            | some rest ↦ ap (λ v. some (v ∷ rest)) (Alike-view viewer ss ts p q h (e p.id))
          ])

AllAlike-view :
    (viewer : Text) (ss ts : List Submission) (ps qs : List Player) (js : List Text)
    → ((id : Text) → has_submission id ts ≡ has_submission id ss)
    → AllAlike viewer ps qs
    → view_players viewer ts qs js ≡ view_players viewer ss ps js
unfolding view_players
AllAlike-view viewer ss ts ps qs [] e h = refl
AllAlike-view viewer ss ts ps qs (j ∷ js) e h =
    SameFind-view viewer ss ts (find_player j ps) (find_player j qs) (view_players viewer ss ps js)
      (view_players viewer ts qs js) e (AllAlike-find viewer j ps qs h)
      (AllAlike-view viewer ss ts ps qs js e h)

snapshots_agree :
    (r s : Room) (f g : Option (List Player))
    → g ≡ f
    → ((seen : List Player) → snapshot_of s seen ≡ snapshot_of r seen)
    → (elim g [ none ↦ none | some seen ↦ some (snapshot_of s seen) ])
      ≡ (elim f [ none ↦ none | some seen ↦ some (snapshot_of r seen) ])
snapshots_agree r s none g h e = rw h
snapshots_agree r s (some seen) g h e = rw (h, e seen)

-- The snapshot that is sent to a viewer does not depend on the hands of the others. Nor does it depend,
-- as long as the same players have answered, on the cards played and their authors while answers
-- are taken, and on the authors, by id or by name, while the judge decides.
pub snapshot_hides :
    (viewer : Text) (r : Room) (qs : List Player) (ts : List Submission)
    → AllAlike viewer r.players qs
    → AllHidden r.phase r.submissions ts
    → SameAuthors r.submissions ts
    → snapshot_for viewer (record r { players = qs; submissions = ts }) ≡ snapshot_for viewer r
unfolding snapshot_for snapshot_of
snapshot_hides viewer r qs ts h k same_authors =
    snapshots_agree r (record r { players = qs; submissions = ts })
      (view_players viewer r.submissions r.players r.order) (view_players viewer ts qs r.order)
      (AllAlike-view viewer r.submissions ts r.players qs r.order same_authors h)
      (λ seen.
        ap (λ ss. record (snapshot_of r seen) { submissions = sort_by submitted_before ss })
          (AllHidden-redact_all r.phase r.submissions ts k))
