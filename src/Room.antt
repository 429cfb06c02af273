-- ===== src/Room.antt =====
-- A live room (backend/internal/realtime/room.go, types.go, state.go).
pub mod World
pub mod Types
pub mod Draw
pub mod Roster
pub mod Persist
pub mod Phase
pub mod Round
pub mod Turns
pub mod Join
pub mod Leave
pub mod Submit
pub mod Host
pub mod Settings
pub mod Timers
pub mod Snapshot
pub mod Restore
pub mod Step
pub mod Ids
pub mod Piled
pub mod Calm
pub mod Keeps
pub mod Moves
pub mod Ends
pub mod Seats
pub mod History
pub mod Flow
pub mod NoPanic
pub mod Secrets
pub mod Departed
pub mod Refusals
