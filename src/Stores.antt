-- ===== src/Stores.antt =====
-- The client stores (frontend/stores): each is a record, its actions are functions on the record.
pub mod Reply
pub mod Logs
pub mod Credits
pub mod Account
pub mod Reset
pub mod Config
pub mod Users
pub mod Servers
pub mod Dashboard
pub mod Security
pub mod Jobs
