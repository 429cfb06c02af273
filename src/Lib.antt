-- ===== src/Lib.antt =====
-- Punchline, a party card game: players of a room are dealt answer cards, answer a prompt, a rotating
-- judge picks the winner of the round. This library models the backend's own logic (backend/internal)
-- and proves what keeps a game sound.
--
-- The parts and where they are:
-- - Cards: the deck. Cards.Deck and Cards.Shuffle are backend/internal/cards/deck.go (Deck, For,
--   Playable, ShuffledPrompts, ShuffledAnswers), Cards.Validate its validateDeck.
-- - Room: backend/internal/realtime/room.go, every method of Room that changes a room.
--   Room.Types holds the state (the struct Room and what is in it), Room.World the sources of random
--   bytes, Room.Draw the piles, Room.Roster the maps and the order, Room.Join TryJoin, Attach and
--   Detach's host, Room.Leave Leave and the loss of a player, Room.Phase the phases and the award,
--   Room.Round beginRoundLocked, Room.Submit SubmitAnswer and PickWinner, Room.Turns and Room.Timers
--   the deadline and the computer players, Room.Host the host's commands, Room.Settings
--   UpdateSettings, Room.Snapshot what is sent to a client, Room.Persist and Room.Restore the durable
--   state and RestoreRoom. Room.Step lists the calls and runs a history of them; each call holds the
--   room's mutex to its end, so a history is a list. Shutdown, with which an instance gives a room up, is
--   not one of the calls: Manager.Rooms uses it.
-- - Registry: backend/internal/realtime/registry.go, the leases that instances hold on room codes.
-- - Store: backend/internal/realtime/state.go, MemoryRoomStateStore.
-- - Manager: backend/internal/realtime/manager.go, the rooms of one instance, over the interfaces
--   RoomRegistry and RoomStateStore, which are records of operations that every function takes.
--   Manager.Rooms holds what runs under the manager's lock, Manager.Queue the states that wait to be
--   saved, Manager.Calls CreateRoom and GetRoom, Manager.Upkeep the heartbeat, the janitor and the
--   shutdown, Manager.Step all of these as calls and runs a history of them. Manager.Memory fills the
--   interfaces with Registry and Store.
-- - Session: backend/internal/httpapi/handler.go, the loop of wsRoom over the messages of a client: the
--   limiter, the call of the room, the saving of its state, the answer. Session.Acknowledged and
--   Session.Failed are about messages that were accepted and that failed.
-- - Http: the rest of backend/internal/httpapi. Http.Requests holds what the handlers of handler.go share
--   (allowRequest, writeRoomLookupError, the answers), Http.Rooms the handlers rooms, computerRoom and
--   roomByCode, Http.Sockets the beginning and the end of wsRoom, Http.Origin originAllowed, cors and
--   securityHeaders, Http.Admin the guard of the desk and the seed of a reporter (admin.go), Http.Metrics
--   the counters, Http.Metrics.Keys the order in which they are written (metrics.go), and
--   Http.Metrics.Instrument routeLabel with what instrument of middleware.go does. The handlers
--   keep a room in the manager's map: put_back is the write through its pointer, with the states that
--   its observer was given. Http.Answered, Http.Answered.Created, Http.Stored, Http.Made, Http.Undone,
--   Http.Orders, Http.Labels and Http.Counted are proofs, as are Http.Sockets.Opened, Http.Admin.Guarded
--   and Http.Origin.Listed.
-- - Daily: backend/internal/daily, service.go and promote.go, as far as it is not SQL: SetDeck, promptFor,
--   validateName, normalizeCode, validUUID, randomCode, randomUUID, groupStreak and
--   NormalizeCandidateText. Daily.Names, Daily.Codes and Daily.Streaks are about them.
-- - Content: backend/internal/content/service.go, Report over the statements of the database as
--   parameters, with clampLimit and cardOrder. Content.Reports is about Report.
-- - Telemetry: backend/internal/telemetry/cards.go, the recorder of card counters over a database that
--   answers each write. Telemetry.Counts and Telemetry.Accounts are about its counters.
-- - Limiter: backend/internal/httpapi/ratelimit.go, the fixed-window limiter.
-- - Proxy: the address of a client behind proxies, in the same file, over package net as a parameter;
--   Proxy.Untrusted is about headers that have no say.
-- - Ws: backend/internal/ws/ws.go, reading frames and messages, writing frames.
--
-- Cards.Valid is about the decks that pass the validation. The rest of Room are proofs: Room.Ids,
-- Room.Seats (the roster), Room.Piled, Room.Calm and Room.NoPanic (drawing cards), Room.Keeps and
-- Room.Flow (phases and the timer), Room.History (any history of calls), Room.Secrets (snapshots),
-- Room.Refusals (calls that change nothing), Room.Departed (a judge who has left), Room.Moves (phase
-- numbers and versions), Room.Ends (rounds that are left to their timers). Manager.Hosting and
-- Manager.History are about the maps of an instance, Manager.Renewal about its leases, Manager.Kept and
-- Manager.Newest about the states that wait and that are saved. Registry.Table reads the registry as a
-- table of leases. Base.Keys has the lemmas on maps, Base.Trim those on trimming,
-- Base.Sorts sorting by a comparison, Base.Strings what is used of package strings, Base.Uuids the
-- check of ids. Tests holds runs and the theorems at concrete inputs.
--
-- How the code is read:
-- - A string is the list of its runes. Trimming and case are those of the ASCII letters and of the
--   runes that reach them, which is all that the code's own constants and room codes use.
-- - A map is a list of its entries in the order of insertion; where the code ranges over a map, the
--   result does not depend on the order but for ties.
-- - A time is in nanoseconds, and 0 is the zero time. A call reads the clock once: the several calls
--   of time.Now in one method are taken to agree.
-- - Counters are unbounded, but for the state version, which wraps at 2^64.
-- - A nil dereference or an index out of range sets the ghost field `panicked`, and the model goes on.
-- - `seed` numbers the draws of random numbers in the room, `now` is the clock that the last call
--   read, `scheduled` lists the calls that time.AfterFunc was given for the computer players.
-- - The observer of states and the telemetry recorder are logs of what they were given.
-- - Filling a room with computer players loops on fuel: three rounds, the number of players that a
--   game needs, are enough since each round adds a player or fails.
-- - Reading a message loops on fuel: a frame takes at least two bytes, so one more than the number of
--   bytes is enough.
-- - A call of the manager takes its context as done throughout or not at all. Its calls of the registry
--   and of the store are listed with their results, without durations. Each round of CreateRoom draws
--   from `seed` on. Where the code ranges over a map of rooms, the order is that of the entries; where
--   it takes any pending state, the code of the state is an argument. `closed` lists the rooms that
--   were shut. The goroutines that call the rounds and the channel that wakes one are left out.
-- - Broadcasts, sockets and locks are left out, as are the clones of slices that keep a stored value
--   from being shared, since values are not shared here.
-- - A request runs to its end before the next begins, so the room that the manager gives is the room of
--   its map; where there is none, the handler has no answer, as for a nil pointer. What JSON decoding
--   ends with, the parsed query and the client's address are fields of the request.
-- - The packages net and net/url, the tables of package unicode, the hashes and the random bytes are
--   parameters. A date of the daily puzzle is the number of its day in the group's timezone.
-- - The database of Report is a state that each statement may change or fail on; before Commit has
--   succeeded, an error gives back the state before the transaction.
--
-- Not modelled: the handlers of the daily puzzle and of the admin desk behind its guard, the printed text
-- of the metrics, static files, the upgrade of a socket, the statements of SQL in daily, content and the
-- PostgreSQL stores, the commands under backend/cmd, the database migrations and the frontend: input and
-- output, SQL and wiring around the parts above.
pub mod Base
pub mod Cards
pub mod Room
pub mod Registry
pub mod Store
pub mod Manager
pub mod Content
pub mod Daily
pub mod Http
pub mod Limiter
pub mod Proxy
pub mod Telemetry
pub mod Ws
pub mod Session
mod Tests
