-- ===== src/Tests/Sessions.antt =====
-- Messages of the host of a room.
use punchline.Base.{◌≡◌, refl, false, List, [], none, Text, codes, text_discrete}
use punchline.Base.Int.{pos}
use punchline.Base.Maps.{find, put}
use punchline.Room.Types.{not_accepting}
use punchline.Room.Persist.{persisted_state, touch, observed, stamped}
use punchline.Room.Phase.{set_phase}
use punchline.Room.Join.{new_room}
use punchline.Room.Host.{end_game}
use punchline.Room.Submit.{submit_answer, submit_answer_locked, after_submit}
use punchline.Room.Roster.{find_player}
use punchline.Room.Restore.{normalize_room_code}
use punchline.Registry.{RoomRecord}
use punchline.Store.{States, save_room_state, is_newer}
use punchline.Manager.Queue.{save_state}
use punchline.Manager.Memory.{memory_store, memory-remembers, stored_version}
use punchline.Limiter.{allow, count_attempt, bucket_or_zero, attempted, prune}
use punchline.Session.{
  ClientMessage, Session, of_room, accepted, failed, action, acted, handed_on, observe,
  persist_room, answered, after_action, do_action, on_message,
}
use punchline.Session.Acknowledged.{IsDone, on_message-IsStored}
use punchline.Session.Failed.{on_message-failed}
use punchline.Tests.Inputs.{counting}
use punchline.Tests.Managers.{heard_room, durable}

abbrev message : Text → ClientMessage
message type = record {
  type = type;
  answer_card_id = codes "a1";
  submission_id = [];
  settings = none;
}

abbrev connected : Session (List RoomRecord) States
connected = record {
  room = heard_room;
  instance_of = durable;
  limiter = record { buckets = []; attempts = 7 };
}

was_accepted :
    (on_message counting memory_store false
      (codes "::1")
      (codes "x")
      (pos 30)
      (message (codes "end_game"))
      2000
      connected).1
    ≡ accepted
unfolding on_message do_action after_action answered persist_room observe handed_on acted action
    allow count_attempt bucket_or_zero attempted prune find put text_discrete end_game set_phase
    touch observed stamped persisted_state new_room save_state save_room_state is_newer
    normalize_room_code
was_accepted = refl

on_message-IsStored_example :
    IsDone counting memory_store stored_version memory-remembers
      (action counting
        (codes "x")
        (message (codes "end_game"))
        (record (connected.room) { now = 2000 }))
      (on_message counting memory_store false
        (codes "::1")
        (codes "x")
        (pos 30)
        (message (codes "end_game"))
        2000
        connected).0
on_message-IsStored_example =
    on_message-IsStored counting memory_store stored_version memory-remembers false (codes "::1")
      (codes "x") (pos 30) (message (codes "end_game")) 2000 connected was_accepted

was_failed :
    (on_message counting memory_store false
      (codes "::1")
      (codes "x")
      (pos 30)
      (message (codes "submit_answer"))
      2000
      connected).1
    ≡ failed (of_room not_accepting)
unfolding on_message do_action after_action acted action allow count_attempt bucket_or_zero
    attempted prune find put text_discrete submit_answer submit_answer_locked after_submit new_room
    find_player
was_failed = refl

on_message-failed_example :
    ((on_message counting memory_store false
        (codes "::1")
        (codes "x")
        (pos 30)
        (message (codes "submit_answer"))
        2000
        connected).0.room
      ≡ record heard_room { now = 2000 })
    × ((on_message counting memory_store false
          (codes "::1")
          (codes "x")
          (pos 30)
          (message (codes "submit_answer"))
          2000
          connected).0.instance_of
        ≡ durable)
unfolding text_discrete
on_message-failed_example =
    on_message-failed counting memory_store false (codes "::1") (codes "x") (pos 30)
      (message (codes "submit_answer")) 2000 connected (of_room not_accepting) refl refl was_failed
