-- ===== src/Room/Seats/Leaves.antt =====
-- Leaving, and taking back a join, keep the roster's invariant.
use punchline.Base.{
  ◌≡◌, ◌&&◌, refl, ◌∙◌, ap, List, [], ◌∷◌, Text, arith, Bool, true, false, Option-cases, inl, inr,
}
use punchline.Room.World.{World}
use punchline.Room.Types.{Phase, submitting, judging, scoring, finished, Player, Room}
use punchline.Room.Roster.{find_player, put_player, remove_id, return_cards}
use native.Mathlib.Nat.{le_trans}
use punchline.Room.Persist.{touch}
use punchline.Room.Phase.{begin_judging}
use punchline.Room.Join.{unseat, undo_join}
use punchline.Room.Leave.{
  remove_player, clear_judge, void_round, settle, apply_roster_loss, leave, answering,
}
use punchline.Room.Ids.{
  ids, ids-delete_player, Distinct-remove_id, Fresh-remove_id, length-remove_id-le,
  ids-return_cards, ids-put_player,
}
use punchline.Room.Keeps.{
  Keeps, Keeps-refl, Keeps-trans, set_phase-Keeps, begin_judging-Keeps, schedule-Keeps, touch-Keeps,
}
use punchline.Room.Seats.{IsSeated, Keeps-IsSeated}

pub ids-clear_judge :
    (js : List Text) (ps : List Player) (b : Bool) → ids (clear_judge js ps b).0 ≡ ids ps
unfolding clear_judge
ids-clear_judge [] ps b = refl
ids-clear_judge (id ∷ js) ps b = elim (Option-cases (find_player id ps)) [
  | inl e ↦ rw (e, clear_judge) (ids-clear_judge js ps true)
  | inr (p, e) ↦
      rw (e, clear_judge)
        (ids-clear_judge js (put_player (record p { is_judge = false }) ps) b
          ∙ ids-put_player id p _ ps e refl)
]

void_round-Keeps : (r : Room) → Keeps r (void_round r)
unfolding void_round
void_round-Keeps r = ground (
  arith,
  ids-clear_judge r.order (return_cards r.submissions r.players) r.panicked,
  ids-return_cards r.submissions r.players,
)

module _ (w : World) where
  settle-Keeps : (p : Phase) (r : Room) → Keeps r (settle w p r)
  unfolding settle
  settle-Keeps submitting r =
      ground (arith, Keeps-refl r, begin_judging-Keeps r, schedule-Keeps w (begin_judging r))
  settle-Keeps judging r = ground (arith, Keeps-refl r, set_phase-Keeps scoring 0 r)
  settle-Keeps _ r = Keeps-refl r

  pub apply_roster_loss-Keeps : (b : Bool) (r : Room) → Keeps r (apply_roster_loss w b r)
  unfolding apply_roster_loss
  apply_roster_loss-Keeps b r = ground (
    arith,
    Keeps-refl r,
    void_round-Keeps r,
    settle-Keeps r.phase r,
    set_phase-Keeps finished 0 r,
  )

  remove_player-IsSeated : (p : Player) (r : Room) → IsSeated w r → IsSeated w (remove_player p r)
  unfolding remove_player
  remove_player-IsSeated p r v = record {
    known = ids-delete_player p.id r.players ∙ ap (remove_id p.id) v.known;
    distinct = Distinct-remove_id p.id r.order v.distinct;
    limited = record {
      score_low = v.limited.score_low;
      score_high = v.limited.score_high;
      submit_low = v.limited.submit_low;
      submit_high = v.limited.submit_high;
      players_low = v.limited.players_low;
      players_high = v.limited.players_high;
      within = le_trans (length-remove_id-le p.id r.order) v.limited.within;
    };
    unused = λ k g. Fresh-remove_id p.id _ r.order (v.unused k g);
  }

  pub leave-IsSeated : (id : Text) (r : Room) → IsSeated w r → IsSeated w (leave w id r).0
  unfolding leave
  leave-IsSeated id r v = elim (Option-cases (find_player id r.players)) [
    | inl e ↦ rw (e, leave) v
    | inr (p, e) ↦
        let s = remove_player p r in
        let lost = apply_roster_loss w (p.is_judge && answering r.phase) s in
        rw (e, leave)
          (Keeps-IsSeated w s (touch lost)
            (Keeps-trans s lost (touch lost)
              (apply_roster_loss-Keeps (p.is_judge && answering r.phase) s) (touch-Keeps lost))
            (remove_player-IsSeated p r v))
  ]

  unseat-IsSeated : (p : Player) (r : Room) → IsSeated w r → IsSeated w (unseat p r)
  unfolding unseat
  unseat-IsSeated p r v = record {
    known = ids-delete_player p.id r.players ∙ ap (remove_id p.id) v.known;
    distinct = Distinct-remove_id p.id r.order v.distinct;
    limited = record {
      score_low = v.limited.score_low;
      score_high = v.limited.score_high;
      submit_low = v.limited.submit_low;
      submit_high = v.limited.submit_high;
      players_low = v.limited.players_low;
      players_high = v.limited.players_high;
      within = le_trans (length-remove_id-le p.id r.order) v.limited.within;
    };
    unused = λ k g. Fresh-remove_id p.id _ r.order (v.unused k g);
  }

  pub undo_join-IsSeated : (id : Text) (r : Room) → IsSeated w r → IsSeated w (undo_join id r)
  unfolding undo_join
  undo_join-IsSeated id r v = elim (Option-cases (find_player id r.players)) [
    | inl e ↦ rw (e, undo_join) v
    | inr (p, e) ↦ rw (e, undo_join) (ground (arith, v, unseat-IsSeated p r v))
  ]
