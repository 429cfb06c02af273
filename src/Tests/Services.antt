-- ===== src/Tests/Services.antt =====
-- Leases, stores, limits and messages.
use punchline.Base.{
  ℕ, ◌≡◌, refl, ap, text_discrete, List, [], ◌∷◌, none, some, codes, arith, length, if◌then◌else◌,
  ltb,
}
use punchline.Room.Types.{PersistedRoomState, scoring}
use punchline.Registry.{
  RoomRecord, reserve, find_record, live_record, reserve_room, handle, room_code_reserved,
}
use punchline.Registry.Lease.{lease_exclusive, reserve-reserve}
use punchline.Registry.{Call, lookup, is_live, put_record}
use punchline.Registry.Index.{IsIndex}
use punchline.Registry.Table.{leases, last_time, handle_all, lease_calls, handle_all-lease_calls}
use punchline.Store.{save_all, load_room_state}
use punchline.Tests.Inputs.{small_deck}
use punchline.Manager.{Manager}
use punchline.Manager.Queue.{enqueue_all}
use punchline.Manager.Kept.{waiting}
use punchline.Manager.Newest.{greatest, enqueue_all-greatest}
use punchline.Store.Order.{save_all-newest, newest, revision_of}
use Prim.Native.Nat.{min}
use punchline.Base.{◌+◌, false}
use punchline.Base.Maps.{find}
use punchline.Limiter.{RateLimiter, minute, bucket_or_zero}
use punchline.Limiter.Window.{Attempts, admitted, attempts_of, admitted-window}
use punchline.Ws.{
  read_message, read_frame, received, read_full, byte_at, read_length, read_body, gather, unmask,
}
use punchline.Ws.Written.{read_sent, read_sent-write_frame}
use punchline.Ws.{got, write_frame, sent_payload}
use punchline.Ws.Bounds.{IsBounded, read_message-IsBounded}
use punchline.Room.Restore.{normalize_room_code}

abbrev held : RoomRecord
held = record {
  code = codes "ABCD";
  instance_id = codes "one";
  claimed_at = 10;
  heartbeat_at = 10;
  expires_at = 40;
  updated_at = 10;
}

lease_exclusive_example :
    find_record
      (codes "ABCD")
      (handle false 20 (reserve (codes " abcd") (codes "second") 30) (held ∷ []))
    ≡ some held
unfolding find_record text_discrete
lease_exclusive_example =
    lease_exclusive false 20 (reserve (codes " abcd") (codes "second") 30) (codes "ABCD") held
      (held ∷ []) refl (omega arith) (λ e. absurd (omega (arith, ap length e)))

reserve-reserve_example :
    (reserve_room false
      (codes "ABCD")
      (codes "second")
      30
      25
      (reserve_room false (codes "ABCD") (codes "one") 30 10 []).0).1
    ≡ (if ltb 25 40 then some room_code_reserved else none)
unfolding reserve_room live_record find_record
reserve-reserve_example =
    reserve-reserve (codes "ABCD") (codes "one") (codes "second") 30 30 10 25 [] refl

abbrev saved : ℕ → PersistedRoomState
saved revision = record {
  schema_version = 1;
  revision = revision;
  instance_id = [];
  code = codes "abcd";
  phase = scoring;
  phase_seq = 1;
  phase_deadline = 0;
  round_number = 1;
  prompt = none;
  host_id = [];
  judge_id = [];
  judge_index = 0;
  score_limit = 5;
  submit_secs = 60;
  max_players = 8;
  content_tier = codes "party";
  players = [];
  order = [];
  submissions = [];
  answer_pile = [];
  prompt_pile = [];
  created_at = 1;
  updated_at = 1;
}

save_all-newest_example :
    revision_of
      (load_room_state false (codes "ABCD") (save_all (saved 2 ∷ saved 7 ∷ saved 5 ∷ []) [])).0
    ≡ newest (normalize_room_code (codes "ABCD")) none (saved 2 ∷ saved 7 ∷ saved 5 ∷ [])
unfolding normalize_room_code
save_all-newest_example =
    save_all-newest (codes "ABCD") (saved 2 ∷ saved 7 ∷ saved 5 ∷ [])
      (λ e. absurd (omega (arith, ap length e)))

newest-saved : newest (codes "ABCD") none (saved 2 ∷ saved 7 ∷ saved 5 ∷ []) ≡ some 7
unfolding newest normalize_room_code text_discrete
newest-saved = refl

abbrev idle_limiter : RateLimiter
idle_limiter = record { buckets = []; attempts = 255 }

abbrev burst : Attempts
burst = (codes "ann", minute + 1) ∷ (codes "bob", minute + 2) ∷ (codes "ann", minute + 3) ∷ []

admitted-window_example :
    admitted (codes "ann") (λ _. 2) minute ((codes "ann", minute) ∷ burst) idle_limiter
    ≡ min 2 (attempts_of (codes "ann") ((codes "ann", minute) ∷ burst))
unfolding bucket_or_zero find
admitted-window_example =
    admitted-window (codes "ann") (λ _. 2) minute (omega arith) (omega arith) minute burst
      idle_limiter (omega arith)
      ((omega arith, omega arith), ((omega arith, omega arith), ((omega arith, omega arith), tt)))

-- A ping and a text frame "hi", both under the mask 1 2 3 4.
abbrev wire : List ℕ
wire = 137 ∷ 128 ∷ 1 ∷ 2 ∷ 3 ∷ 4 ∷ 129 ∷ 130 ∷ 1 ∷ 2 ∷ 3 ∷ 4 ∷ 105 ∷ 107 ∷ []

read_message-IsBounded_example : IsBounded (read_message (length wire + 1) wire [] false [])
read_message-IsBounded_example = read_message-IsBounded wire

hi_received : read_message (length wire + 1) wire [] false [] ≡ (received (codes "hi") [], [] ∷ [])
unfolding read_message read_frame read_full byte_at read_length read_body gather unmask
hi_received = refl

read_sent-write_frame_example :
    read_sent (write_frame 1 (codes "hello"))
    ≡ got (length (sent_payload 1 (codes "hello"))) (sent_payload 1 (codes "hello"))
unfolding sent_payload
read_sent-write_frame_example = read_sent-write_frame 1 (codes "hello") (omega arith)

-- A reservation while the code is held, a second one once the lease is over, and a look-up.
abbrev rivals : List (ℕ × Call)
rivals =
    (20, reserve (codes "abcd") (codes "second") 30)
    ∷ (40, reserve (codes "abcd") (codes "second") 30)
    ∷ (80, lookup (codes "ABCD") (codes "one"))
    ∷ []

held-IsIndex : IsIndex (held ∷ [])
unfolding IsIndex find_record
held-IsIndex = (refl, tt)

handle_all-lease_calls_example :
    leases (last_time 10 rivals) (handle_all rivals (held ∷ []))
    ≡ lease_calls rivals (leases 10 (held ∷ []))
handle_all-lease_calls_example =
    handle_all-lease_calls 10 rivals (held ∷ []) held-IsIndex
      (omega arith, (omega arith, (omega arith, tt)))

second-holds :
    leases 45
      (handle_all
        ((20, reserve (codes "abcd") (codes "second") 30)
          ∷ (40, reserve (codes "abcd") (codes "second") 30)
          ∷ [])
        (held ∷ []))
      (codes "ABCD")
    ≡ some (codes "second", 70)
unfolding handle_all handle reserve_room live_record is_live find_record put_record
    normalize_room_code text_discrete
second-holds = refl

abbrev empty_handed : Manager
empty_handed = record {
  deck = small_deck;
  card_telemetry = none;
  rooms = [];
  instance_id = codes "one";
  room_lease_ttl = 30;
  room_idle_ttl = 600;
  max_local_rooms = 2;
  is_draining = false;
  operations = [];
  pending_room_states = [];
  closed = [];
}

enqueue_all-greatest_example :
    waiting (codes "abcd") (enqueue_all (saved 2 ∷ saved 7 ∷ saved 5 ∷ []) empty_handed)
    ≡ greatest
        (codes "abcd")
        (saved 2 ∷ saved 7 ∷ saved 5 ∷ [])
        (waiting (codes "abcd") empty_handed)
enqueue_all-greatest_example =
    enqueue_all-greatest (codes "abcd") (saved 2 ∷ saved 7 ∷ saved 5 ∷ []) empty_handed
