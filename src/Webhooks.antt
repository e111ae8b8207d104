-- ===== src/Webhooks.antt =====
-- gateway/src/webhooks: the attempts at a delivery.
pub mod Delivery
