-- ===== src/Uploads.antt =====
-- gateway/src/http: what an uploaded file is.
pub mod Sniff
