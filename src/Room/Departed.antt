-- ===== src/Room/Departed.antt =====
-- A judge who leaves once the round is scored stays the judge of the room's durable state, which
-- `RestoreRoom` then refuses.
use punchline.Base.{
  ℕ, ◌≡◌, ◌≢◌, refl, sym, subst, true, false, List, [], ◌∷◌, some, Text, arith, text_discrete,
  Option-cases, inl, inr, ◌⊎◌, ap, holds, if◌then◌else◌, Bool-cases, ◌∙◌,
}
use punchline.Cards.Deck.{Deck}
use punchline.Room.World.{World}
use punchline.Room.Types.{scoring, Player, PersistedPlayer, PersistedRoomState, Room}
use punchline.Room.Roster.{find_player, put_player, remove_id}
use punchline.Room.Persist.{persisted_player, persisted_players, persisted_state, touch}
use punchline.Room.Phase.{set_phase}
use punchline.Room.Leave.{leave, remove_player, apply_roster_loss, answering, in_play, settle}
use punchline.Room.Restore.{
  Restored, ok, err, RestoreError, is_known, restored_player, restore_players, unknown,
  restore_room, check_order,
}
use punchline.Room.Ids.{In, here, there, Fresh, Distinct, find_player-id}
use punchline.Room.Seats.{IsSeated}

not-In_of_Fresh : (id : Text) (js : List Text) → Fresh id js → ¬ In id js
not-In_of_Fresh id [] f h = elim h [ ]
not-In_of_Fresh id (j ∷ js) f (here e) = f.0 e
not-In_of_Fresh id (j ∷ js) f (there h) = not-In_of_Fresh id js f.1 h

not-In-remove_id : (id : Text) (js : List Text) → Distinct js → ¬ In id (remove_id id js)
unfolding remove_id
not-In-remove_id id [] d = λ h. elim h [ ]
not-In-remove_id id (j ∷ js) d =
    elim (text_discrete j id) as (λ x. ¬ In id (if holds x then js else j ∷ remove_id id js)) [
      | yes e ↦ not-In_of_Fresh id js (subst (λ k. Fresh k js) e d.0)
      | no e ↦ λ h. elim h [ here f ↦ e f | there g ↦ not-In-remove_id id js d.1 g ]
    ]

persisted_ids : List PersistedPlayer → List Text
persisted_ids [] = []
persisted_ids (q ∷ qs) = q.id ∷ persisted_ids qs

In-persisted_players :
    (id : Text) (ps : List Player) (js : List Text)
    → In id (persisted_ids (persisted_players ps js))
    → In id js
unfolding persisted_players persisted_ids persisted_player
In-persisted_players id ps [] h = elim h [ ]
In-persisted_players id ps (j ∷ js) h = elim (Option-cases (find_player j ps)) [
  | inl e ↦ there (In-persisted_players id ps js (rw (e, persisted_players) at h))
  | inr (p, e) ↦ elim (rw (e, persisted_players) at h) [
    | here f ↦ here (sym (find_player-id j p ps e) ∙ f)
    | there g ↦ there (In-persisted_players id ps js g)
  ]
]

players_of : Restored (List Player) → List Player
players_of (ok ps) = ps
players_of (err _) = []

ok_inj : {ps qs : List Player} → ok ps ≡ ok qs → ps ≡ qs
unfolding players_of
ok_inj h = ap players_of h

is_known-put_player :
    (id : Text) (p : Player) (ps : List Player)
    → is_known id (put_player p ps) ≡ true
    → (is_known id ps ≡ true) ⊎ (p.id ≡ id)
unfolding is_known find_player put_player
is_known-put_player id p [] h = ground arith
is_known-put_player id p (q ∷ ps) h = ground (arith, is_known-put_player id p ps)

restore_players-step :
    (acc ps : List Player) (q : PersistedPlayer) (qs : List PersistedPlayer)
    → restore_players acc (q ∷ qs) ≡ ok ps
    → restore_players (put_player (restored_player q) acc) qs ≡ ok ps
unfolding restore_players
restore_players-step acc ps q qs h = ground arith

In-restore_players :
    (id : Text) (acc ps : List Player) (qs : List PersistedPlayer)
    → restore_players acc qs ≡ ok ps
    → is_known id ps ≡ true
    → (is_known id acc ≡ true) ⊎ In id (persisted_ids qs)
unfolding restore_players persisted_ids restored_player
In-restore_players id acc ps [] h k = inl (subst (λ x. is_known id x ≡ true) (sym (ok_inj h)) k)
In-restore_players id acc ps (q ∷ qs) h k =
    elim (In-restore_players id (put_player (restored_player q) acc) ps qs
      (restore_players-step acc ps q qs h) k) [
        | inl e ↦ elim (is_known-put_player id (restored_player q) acc e) [
          | inl f ↦ inl f
          | inr f ↦ inr (here f)
        ]
        | inr g ↦ inr (there g)
      ]

pub Restored-cases :
    {A : Type 0} (m : Restored A) → ((a : A) × (m ≡ ok a)) ⊎ ((e : RestoreError) × (m ≡ err e))
Restored-cases (ok a) = inl (a, refl)
Restored-cases (err e) = inr (e, refl)

unknown-known :
    (id : Text) (ps : List Player) → id ≢ [] → unknown id ps ≡ false → is_known id ps ≡ true
unfolding unknown
unknown-known id ps n h = ground arith

known-listed :
    (ps : List Player) (state : PersistedRoomState)
    → state.judge_id ≢ []
    → ¬ In state.judge_id (persisted_ids state.players)
    → restore_players [] state.players ≡ ok ps
    → unknown state.judge_id ps ≡ true
unfolding unknown
known-listed ps state j n e = elim (Bool-cases (is_known state.judge_id ps)) [
  | inl k ↦ elim (In-restore_players state.judge_id [] ps state.players e k) [
    | inl m ↦ ground (arith, m, is_known)
    | inr m ↦ absurd (n m)
  ]
  | inr k ↦ ground (arith, k, j)
]

-- A state that lists no player under its judge's id is refused.
restore_room-unknown :
    (w : World) (state : PersistedRoomState) (deck : Deck) (now seed : ℕ) (s : Room)
    → state.judge_id ≢ []
    → ¬ In state.judge_id (persisted_ids state.players)
    → restore_room w state deck now seed ≢ ok s
unfolding restore_room
restore_room-unknown w state deck now seed s j n h =
    elim (Restored-cases (restore_players [] state.players)) [
      | inl (ps, e) ↦ elim (Restored-cases (check_order ps state.order)) [
        | inl (_, f) ↦ ground (arith, e, f, known-listed ps state j n e)
        | inr (_, f) ↦ ground (arith, e, f)
      ]
      | inr (_, e) ↦ ground (arith, e)
    ]

order-settled :
    (w : World) (r : Room)
    → r.phase ≡ scoring
    → ((apply_roster_loss w false r).judge_id ≡ r.judge_id)
      × ((apply_roster_loss w false r).order ≡ r.order)
unfolding apply_roster_loss settle in_play set_phase
order-settled w r h = ground arith

judge_id-leave :
    (w : World) (id : Text) (r : Room) (p : Player)
    → find_player id r.players ≡ some p
    → r.phase ≡ scoring
    → ((leave w id r).0.judge_id ≡ r.judge_id) × ((leave w id r).0.order ≡ remove_id id r.order)
unfolding leave answering remove_player touch
judge_id-leave w id r p f h =
    ground (arith, f, find_player-id id p r.players f, order-settled w (remove_player p r) h)

-- In a well-formed room whose round is scored, let the judge leave. The state that the room then
-- persists is one that `RestoreRoom` refuses: the room cannot come back after a restart.
pub leave-restore_room :
    (w : World) (r : Room) (p : Player)
    → IsSeated w r
    → r.phase ≡ scoring
    → find_player r.judge_id r.players ≡ some p
    → r.judge_id ≢ []
    → (deck : Deck) (now seed : ℕ) (s : Room)
    → restore_room w (persisted_state (leave w r.judge_id r).0) deck now seed ≢ ok s
unfolding persisted_state
leave-restore_room w r p v h f n deck now seed s =
    let left = (leave w r.judge_id r).0 in
    let (j, o) = judge_id-leave w r.judge_id r p f h in
    restore_room-unknown w (persisted_state left) deck now seed s (rw j n) (λ i.
      not-In-remove_id r.judge_id r.order v.distinct (
        subst (In r.judge_id) o (
          In-persisted_players r.judge_id left.players left.order
            (subst (λ k. In k (persisted_ids (persisted_players left.players left.order))) j i))))
