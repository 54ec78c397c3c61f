-- ===== src/Http.antt =====
-- The header lists of the Fetch API, as the source uses them.
pub mod Headers
