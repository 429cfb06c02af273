-- ===== src/Cards.antt =====
-- The card deck (backend/internal/cards/deck.go): cards, tiers, shuffling, seed validation.
pub mod Deck
pub mod Shuffle
pub mod Validate
pub mod Valid
