-- ===== src/Image/RoundTrip.antt =====
-- Hex files as they are printed, and that LoadHex reads back what was printed.
pub mod Fields
pub mod Records
pub mod Images
