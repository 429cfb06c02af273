-- ===== src/Room/Ends.antt =====
-- Rounds that are left to their timers (backend/internal/realtime/room.go).
use punchline.Base.{ℕ, ◌≡◌, refl, ap, true, false, Option, some, none, arith, ◌∙◌, ◌⊎◌, inl, inr}
use punchline.Room.World.{World}
use punchline.Room.Types.{Phase, lobby, submitting, judging, scoring, finished, Room}
use punchline.Room.Phase.{begin_judging, award, set_phase}
use punchline.Room.Persist.{touch}
use punchline.Room.Turns.{schedule_computer_turns}
use punchline.Room.Leave.{answering}
use punchline.Room.Timers.{on_deadline, expire, award_random}
use punchline.Base.{List, Text}
use punchline.Cards.Deck.{Deck}
use punchline.Room.Join.{new_room}
use punchline.Room.Seats.{Unrepeated}
use punchline.Room.History.{new_room-run-IsFlowing}
use punchline.Room.Step.{Call, deadline, handle, run}
use punchline.Room.Flow.{IsFlowing}
use punchline.Room.Flow.Turns.{on_deadline-IsFlowing}

module _ (w : World) where
  abbrev fire_for : Option ℕ → Room → Room
  fire_for none r = r
  fire_for (some seq) r = handle w (deadline seq) r

  -- The armed timer fires; nothing happens where none is armed.
  unfoldable pub fire : Room → Room
  fire r = fire_for r.timer r

  judged_phase : (r : Room) → answering (expire w judging r).phase ≡ false
  unfolding expire award_random award set_phase touch schedule_computer_turns answering
  judged_phase r = ground arith

  closed_phase :
      (r : Room)
      → ((expire w submitting r).phase ≡ judging)
        ⊎ (answering (expire w submitting r).phase ≡ false)
  unfolding expire begin_judging set_phase touch schedule_computer_turns answering
  closed_phase r = ground arith

  fire-expire : (r : Room) → IsFlowing r → answering r.phase ≡ true → fire r ≡ expire w r.phase r
  unfolding fire handle on_deadline
  fire-expire r v a = ap (λ t. fire_for t r) (v.armed a) ∙ ground arith

  fire_unarmed : (r : Room) → IsFlowing r → answering r.phase ≡ false → fire r ≡ r
  unfolding fire
  fire_unarmed r v a = ap (λ t. fire_for t r) (v.unarmed a).0

  fire-IsFlowing : (r : Room) → IsFlowing r → IsFlowing (fire r)
  unfolding fire handle
  fire-IsFlowing r v = fired r.timer
    where
      fired : (t : Option ℕ) → IsFlowing (fire_for t r)
      fired none = v
      fired (some seq) = on_deadline-IsFlowing w seq r v

  fire-judging : (r : Room) → IsFlowing r → r.phase ≡ judging → answering (fire r).phase ≡ false
  unfolding answering
  fire-judging r v e = ground (arith, fire-expire r v, judged_phase r)

  fire-unanswering :
      (r : Room) → IsFlowing r → answering r.phase ≡ false → answering (fire r).phase ≡ false
  fire-unanswering r v a = ground (arith, fire_unarmed r v a)

  fire-submitting :
      (r : Room)
      → IsFlowing r
      → r.phase ≡ submitting
      → ((fire r).phase ≡ judging) ⊎ (answering (fire r).phase ≡ false)
  unfolding answering
  fire-submitting r v e = ground (arith, fire-expire r v, closed_phase r)

  settled_after :
      (r : Room) (p : Phase) → IsFlowing r → r.phase ≡ p → answering (fire (fire r)).phase ≡ false
  unfolding answering
  settled_after r submitting v e = elim (fire-submitting r v e) [
    | inl j ↦ fire-judging (fire r) (fire-IsFlowing r v) j
    | inr a ↦ fire-unanswering (fire r) (fire-IsFlowing r v) a
  ]
  settled_after r judging v e = fire-unanswering (fire r) (fire-IsFlowing r v) (fire-judging r v e)
  settled_after r lobby v e =
      fire-unanswering (fire r) (fire-IsFlowing r v) (fire-unanswering r v (ap answering e))
  settled_after r scoring v e =
      fire-unanswering (fire r) (fire-IsFlowing r v) (fire-unanswering r v (ap answering e))
  settled_after r finished v e =
      fire-unanswering (fire r) (fire-IsFlowing r v) (fire-unanswering r v (ap answering e))

  -- In a room that is well kept, let the armed timer fire twice and nothing else happen: then the room
  -- neither takes answers nor waits for the judge.
  pub fire-fire : (r : Room) → IsFlowing r → answering (fire (fire r)).phase ≡ false
  fire-fire r v = settled_after r r.phase v refl

  -- After every history of calls on a new room, let the armed timer fire twice and nothing else happen:
  -- then the room neither takes answers nor waits for the judge. No two draws of a player id are the
  -- same.
  pub run-fire-fire :
      Unrepeated w
      → (code : Text) (d : Deck) (now seed : ℕ) (cs : List (ℕ × Call))
      → answering (fire (fire (run w cs (new_room w code d now seed)))).phase ≡ false
  run-fire-fire u code d now seed cs = fire-fire _ (new_room-run-IsFlowing w u code d now seed cs)
