-- ===== src/Room/Moves/Expired.antt =====
-- A timer of a phase that is over.
use punchline.Base.{ℕ, ◌<◌, ◌≡◌, ◌≢◌, ◌⊎◌, inl, inr, sym, List, arith}
use punchline.Room.World.{World}
use punchline.Room.Types.{Room}
use punchline.Room.Step.{Call, deadline, submit_turn_due, judge_turn_due, handle, run}
use punchline.Room.Refusals.{IsStale, handle-stale}
use punchline.Room.Moves.{Moves}
use punchline.Room.Moves.Handles.{run-Moves}

-- The call is a timer's that was set under the phase number `seq`.
abbrev pub IsTimer : ℕ → Call → Type 0
IsTimer seq (deadline k) = k ≡ seq
IsTimer seq (submit_turn_due p k) = k ≡ seq
IsTimer seq (judge_turn_due p k) = k ≡ seq
IsTimer seq _ = ⊥

IsTimer-IsStale : (c : Call) (n m : ℕ) → IsTimer n c → n ≢ m → IsStale m c
IsTimer-IsStale (deadline k) n m h e = λ f. e (ground (arith, h, f))
IsTimer-IsStale (submit_turn_due p k) n m h e = λ f. e (ground (arith, h, f))
IsTimer-IsStale (judge_turn_due p k) n m h e = λ f. e (ground (arith, h, f))
IsTimer-IsStale _ n m h e = absurd h

-- The room has gone on to another phase, or to another deadline.
abbrev pub HasGoneOn : Room → Room → Type 0
HasGoneOn r s = (s.phase ≢ r.phase) ⊎ (s.phase_deadline ≢ r.phase_deadline)

-- Where a room has gone on, its phase number is another.
Moves-gone : {v : ℕ} (r s : Room) → Moves v r s → HasGoneOn r s → s.phase_seq ≢ r.phase_seq
Moves-gone r s k (inl n) = λ e. n (k.fixed e)
Moves-gone r s k (inr n) = λ e. n (k.due e)

-- Take a timer that was set in a phase of a room, and any history of calls after which the room is
-- in another phase or has another deadline, as a skipped prompt gives it. The room then has a greater
-- phase number, and when the timer fires it changes nothing.
pub run-expired :
    (w : World) (cs : List (ℕ × Call)) (r : Room) (c : Call)
    → IsTimer r.phase_seq c
    → HasGoneOn r (run w cs r)
    → (r.phase_seq < (run w cs r).phase_seq) × (handle w c (run w cs r) ≡ run w cs r)
run-expired w cs r c h n =
    let k = run-Moves 0 w cs r in
    let m = Moves-gone r (run w cs r) k n in
    (
      omega (arith, k.seq, m),
      handle-stale w c (run w cs r)
          (IsTimer-IsStale c r.phase_seq (run w cs r).phase_seq h (λ e. m (sym e))),
    )
