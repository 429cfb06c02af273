-- ===== src/Daily/Names.antt =====
-- The names of groups and players.
