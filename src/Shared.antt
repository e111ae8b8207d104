-- ===== src/Shared.antt =====
-- shared/src/domain.ts and shared/src/events.ts: what the gateway, the workers and the browser
-- exchange. Ids, names and URLs are texts, times are numbers of milliseconds.
pub mod Domain
pub mod Events
