-- ===== src/Socket.antt =====
-- gateway/src/ws: what each socket may send, and which sockets a replica holds.
pub mod Bucket
pub mod Presence
pub mod Registry
pub mod Server
