-- ===== src/Limits.antt =====
-- gateway/src/limits.ts and gateway/src/ws/rateLimit.ts: what one person, session, room, address or
-- connection may ask for.
pub mod Guesses
pub mod Window
pub mod Upload
