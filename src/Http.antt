-- ===== src/Http.antt =====
-- The HTTP interface (backend/internal/httpapi).
pub mod Metrics
pub mod Orders
pub mod Labels
pub mod Counted
pub mod Requests
pub mod Rooms
pub mod Answered
pub mod Stored
pub mod Made
pub mod Undone
pub mod Origin
pub mod Sockets
pub mod Admin
