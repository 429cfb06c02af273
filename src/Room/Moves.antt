-- ===== src/Room/Moves.antt =====
-- What every operation of a room does to its code, its phase number and its version: the phase and
-- its deadline change only together with the number, which never falls, and the last state that the observer was given
-- is the one of the present version.
pub mod Steps
pub mod Handles
pub mod Expired
use punchline.Base.{ℕ, ◌≤◌, ◌≡◌, refl, List, [], ◌∷◌, Option, none, some, Text, arith}
use punchline.Room.Types.{Phase, PersistedRoomState, CardEvent, Room}
use punchline.Room.Persist.{persisted_state, touch, observed, stamped}
use punchline.Room.Phase.{set_phase, record_event}

-- With the observer's log that starts empty at version `v`: the newest state in it is that of the
-- version and the code.
abbrev pub IsTold : ℕ → Text → ℕ → Option (List PersistedRoomState) → Type 0
IsTold v code version none = ⊥
IsTold v code version (some []) = version ≡ v
IsTold v code version (some (s ∷ log)) = (s.revision ≡ version) × (s.code ≡ code)

abbrev pub IsLogged : ℕ → Room → Type 0
IsLogged v r = IsTold v r.code r.state_version r.state_observer

pub record Moves (v : ℕ) (r s : Room) : Type 0 where
  pub code : s.code ≡ r.code
  pub seq : r.phase_seq ≤ s.phase_seq
  pub fixed : s.phase_seq ≡ r.phase_seq → s.phase ≡ r.phase
  pub due : s.phase_seq ≡ r.phase_seq → s.phase_deadline ≡ r.phase_deadline
  pub logged : IsLogged v r → IsLogged v s

-- The fields that `Moves` is about are the same.
pub record SameCore (r s : Room) : Type 0 where
  pub code : s.code ≡ r.code
  pub seq : s.phase_seq ≡ r.phase_seq
  pub phase : s.phase ≡ r.phase
  pub deadline : s.phase_deadline ≡ r.phase_deadline
  pub version : s.state_version ≡ r.state_version
  pub observer : s.state_observer ≡ r.state_observer

pub Moves-refl : (v : ℕ) (r : Room) → Moves v r r
Moves-refl v r = record {
  code = refl;
  seq = omega arith;
  fixed = λ e. refl;
  due = λ e. refl;
  logged = λ h. h;
}

pub Moves-trans : (v : ℕ) (r s t : Room) → Moves v r s → Moves v s t → Moves v r t
Moves-trans v r s t h k = record {
  code = ground (arith, h.code, k.code);
  seq = omega (arith, h.seq, k.seq);
  fixed = λ e. ground (arith, h.fixed, k.fixed, h.seq, k.seq, e);
  due = λ e. ground (arith, h.due, k.due, h.seq, k.seq, e);
  logged = λ l. k.logged (h.logged l);
}

pub SameCore-Moves : (v : ℕ) (r s : Room) → SameCore r s → Moves v r s
SameCore-Moves v r s h = record {
  code = h.code;
  seq = omega (arith, h.seq);
  fixed = λ e. h.phase;
  due = λ e. h.deadline;
  logged = λ l. rw (h.code, h.version, h.observer) l;
}

pub touch-Moves : (v : ℕ) (r : Room) → Moves v r (touch r)
unfolding touch stamped observed persisted_state
touch-Moves v r = ground arith

pub set_phase-Moves : (v : ℕ) (p : Phase) (d : ℕ) (r : Room) → Moves v r (set_phase p d r)
unfolding set_phase
set_phase-Moves v p d r = ground arith

pub record_event-SameCore : (e : CardEvent) (r : Room) → SameCore r (record_event e r)
unfolding record_event
record_event-SameCore e r = ground arith
