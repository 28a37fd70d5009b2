-- ===== src/Gpg.antt =====
-- The parts of internal/gpgsign that are modelled.
pub mod Payload
pub mod Tests
