-- ===== src/Tests.antt =====
-- Runs of the model at concrete inputs, and the theorems at inputs that meet their hypotheses.
mod Inputs
mod Rooms
mod Services
mod Decks
mod Managers
mod Recorders
mod Sessions
mod Proxies
mod Requests
mod Guards
mod Daily
