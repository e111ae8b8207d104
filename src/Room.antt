-- ===== src/Room.antt =====
-- client/src/state/roomReducer.ts: what a browser shows of its session and room, as a reducer over
-- the events of the gateway and the actions of the page.
pub mod State
pub mod Jobs
pub mod Apply
pub mod Reducer
pub mod Progress
pub mod Holding
pub mod Coherence
pub mod Ids
pub mod Identity
pub mod Isolation
mod Tests
