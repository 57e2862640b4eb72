-- ===== src/Store.antt =====
-- internal/store/store.go: the queries over users, registered groups and web sessions, each as a
-- function on the tables. Every function takes first the engine, then the fault that the driver
-- reports for each statement that it runs, if any.
pub mod Rows
pub mod Sql
pub mod Users
pub mod Groups
pub mod Sessions
pub mod Consistent
pub mod Steps
pub mod Scope
pub mod Settings
pub mod Isolation
pub mod Defaults
pub mod Clearing
pub mod Logins
pub mod Failures
