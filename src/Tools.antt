-- ===== src/Tools.antt =====
-- internal/mcp: the tool handlers and the forms that they build.
pub mod Outcome
pub mod World
pub mod GroupForm
pub mod ExpenseForm
pub mod Sends
pub mod Clients
pub mod Resolve
pub mod Duplicates
pub mod Expenses
pub mod Listing
pub mod Groups
pub mod Keeps
pub mod NewGroups
pub mod Reading
