-- ===== src/Storage.antt =====
-- The package storage: users in MySQL, messages in Elasticsearch, and reports on them.
pub mod Users
pub mod Search
pub mod Messages
pub mod Reports
mod Tests
