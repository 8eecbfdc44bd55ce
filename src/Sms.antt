-- ===== src/Sms.antt =====
-- src/sms: the webhook's gates, the messages and the rate limit.
pub mod Repository
pub mod Phones
pub mod Payload
pub mod Webhook
