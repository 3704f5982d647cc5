-- ===== src/Xml.antt =====
-- internal/api/xml: what the AWS handlers answer.
pub mod Codes
pub mod CachePolicy
