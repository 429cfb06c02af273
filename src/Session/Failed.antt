-- ===== src/Session/Failed.antt =====
-- What a message that fails leaves behind.
use punchline.Base.{
  ℕ, ◌≡◌, ◌≢◌, refl, Bool, true, false, [], Option, none, some, Text, codes, same, arith,
  if◌then◌else◌, ◌⊎◌, inl, inr, ap, ◌∙◌, sym,
}
use punchline.Base.Int.{ℤ, pos}
use punchline.Room.World.{World}
use punchline.Room.Types.{Room, RoomError}
use punchline.Room.Leave.{leave}
use punchline.Room.Submit.{submit_answer, pick_winner}
use punchline.Room.Host.{start_game, next_round, end_game, skip_prompt, play_again}
use punchline.Room.Settings.{update_settings}
use punchline.Room.Refusals.{IsAtomic, requests-IsAtomic}
use punchline.Manager.{RoomStateStore}
use punchline.Manager.Queue.{enqueue_all}
use punchline.Manager.Calls.{observed_states}
use punchline.Store.{StateError}
use punchline.Limiter.{allow, minute}
use punchline.Session.{
  ClientMessage, ActionError, failed, Session, acted, handed_on, action, observe, persist_room,
  answered, message_key, after_action, do_action, on_message,
}

Untouched : Room → Room × (Option ActionError) → Type 0
Untouched r o = (o.1 ≡ none) ⊎ (o.0 ≡ r)

acted-Untouched : (r : Room) (o : Room × (Option RoomError)) → IsAtomic r o → Untouched r (acted o)
unfolding acted Untouched
acted-Untouched r (s, none) h = inl refl
acted-Untouched r (s, some e) (inl h) = cc
acted-Untouched r (s, some e) (inr h) = inr h

if_Untouched :
    (r : Room) (b : Bool) (o p : Room × (Option ActionError))
    → Untouched r o
    → Untouched r p
    → Untouched r (if b then o else p)
if_Untouched r true o p h k = h
if_Untouched r false o p h k = k

not_if-Untouched :
    (r : Room) (b : Bool) (o p : Room × (Option ActionError))
    → b ≡ false
    → Untouched r p
    → Untouched r (if b then o else p)
not_if-Untouched r true o p n k = cc
not_if-Untouched r false o p n k = k

module _ (w : World) where
  action-Untouched :
      (player_id : Text) (msg : ClientMessage) (r : Room)
      → same msg.type (codes "start_computer_game") ≡ false
      → Untouched r (action w player_id msg r)
  unfolding action Untouched
  action-Untouched p msg r n =
      let (a0, a1, a2, a3, a4, a5, a6, a7, a8, a9, a10) =
        requests-IsAtomic w p [] [] msg.answer_card_id msg.submission_id 0 msg.settings r in
      if_Untouched r _ _ _ (acted-Untouched r (start_game w p r) a5) (
        if_Untouched r _ _ _ (acted-Untouched r (submit_answer w p msg.answer_card_id r) a3) (
          if_Untouched r _ _ _ (acted-Untouched r (pick_winner p msg.submission_id r) a4) (
            if_Untouched r _ _ _ (acted-Untouched r (next_round w p r) a6) (
              if_Untouched r _ _ _ (acted-Untouched r (end_game p r) a7) (
                if_Untouched r _ _ _ (acted-Untouched r (play_again w p r) a9) (
                  if_Untouched r _ _ _ (acted-Untouched r (update_settings w p msg.settings r) a10)
                    (if_Untouched r _ _ _ (acted-Untouched r (skip_prompt w p r) a8) (
                      not_if-Untouched r _ _ _ n (
                        if_Untouched r _ _ _ (acted-Untouched r (leave w p r) a1)
                          (inr refl))))))))))

  module _ {R S : Type 0} (stores : RoomStateStore S) where
    observe-heard :
        (r : Room) (s : Session R S)
        → r.state_observer ≡ some []
        → ((observe w stores r s).room ≡ r) × ((observe w stores r s).instance_of ≡ s.instance_of)
    unfolding observe handed_on observed_states enqueue_all
    observe-heard r s h = (
      ap (λ o. record r { state_observer = handed_on o }) h
          ∙ ap (λ o. record r { state_observer = o }) (sym h),
      ap
          (λ o. record (s.instance_of) {
            manager = enqueue_all (observed_states o) s.instance_of.manager;
          })
          h,
    )

    answered-failed :
        (leaving : Bool) (o : Session R S × (Option StateError)) (x : ActionError)
        → (answered w stores leaving o).1 ≢ failed x
    unfolding answered
    answered-failed true (s, e) x h = cc
    answered-failed false (s, none) x h = cc
    answered-failed false (s, some e) x h = cc

    after_action-failed :
        (b leaving : Bool) (s : Session R S) (e : Option ActionError) (x : ActionError)
        → (after_action w stores b leaving s e).1 ≡ failed x
        → (e ≢ none) × ((after_action w stores b leaving s e).0 ≡ s)
    unfolding after_action
    after_action-failed b leaving s none x h =
        absurd (answered-failed leaving (persist_room w stores b s) x h)
    after_action-failed b leaving s (some y) x h = ((λ e. cc), refl)

    do_action-failed :
        (b : Bool) (player_id : Text) (msg : ClientMessage) (now : ℕ) (s : Session R S)
        (x : ActionError)
        → same msg.type (codes "start_computer_game") ≡ false
        → s.room.state_observer ≡ some []
        → (do_action w stores b player_id msg now s).1 ≡ failed x
        → ((do_action w stores b player_id msg now s).0.room ≡ record (s.room) { now = now })
          × ((do_action w stores b player_id msg now s).0.instance_of ≡ s.instance_of)
    unfolding do_action Untouched
    do_action-failed b p msg now s x n h k =
        let q : Room = record (s.room) { now = now } in
        let o = action w p msg q in
        let (e, same_session) =
          after_action-failed b (same msg.type (codes "leave")) (observe w stores o.0 s) (o.1) x
            k in
        elim (action-Untouched p msg q n) [
          | inl f ↦ absurd (e f)
          | inr f ↦
              let g = observe-heard q s h in
              (
                ap (λ t. t.room) same_session ∙ ap (λ r. (observe w stores r s).room) f ∙ g.0,
                ap (λ t. t.instance_of) same_session
                    ∙ ap (λ r. (observe w stores r s).instance_of) f
                    ∙ g.1,
              )
        ]

    -- A message that fails, other than one that starts a game with computer players, changes nothing
    -- in the room but its clock, nothing in the queue and nothing in the store, where the observer of
    -- the room had been heard.
    pub on_message-failed :
        (b : Bool) (ip player_id : Text) (limit : ℤ) (msg : ClientMessage) (now : ℕ)
        (s : Session R S) (x : ActionError)
        → same msg.type (codes "start_computer_game") ≡ false
        → s.room.state_observer ≡ some []
        → (on_message w stores b ip player_id limit msg now s).1 ≡ failed x
        → ((on_message w stores b ip player_id limit msg now s).0.room
            ≡ record (s.room) { now = now })
          × ((on_message w stores b ip player_id limit msg now s).0.instance_of ≡ s.instance_of)
    unfolding on_message
    on_message-failed b ip player_id limit msg now s x n h k =
        let l = (allow (message_key ip player_id) limit (pos minute) now s.limiter).0 in
        ground (arith, k, h, do_action-failed b player_id msg now (record s { limiter = l }) x n h)
