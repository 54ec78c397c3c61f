-- ===== src/Pages.antt =====
-- Pages that show a store and change it by commands to the backend.
pub mod JobList
pub mod Servers
pub mod UserList
pub mod JobControl
mod Tests
