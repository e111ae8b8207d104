-- ===== src/Access.antt =====
-- gateway/src/db/repositories.ts and gateway/src/http/routes: who is in a session, who may enter a
-- room, and what an owner may do about it.
pub mod Database
pub mod Example
pub mod Sessions
pub mod Rooms
pub mod Changes
pub mod Moderation
pub mod History
