-- ===== src/Secret.antt =====
-- src/secret: the fetching and the delivery of sealed secrets.
pub mod Deliver
pub mod Fetch
