-- ===== src/Moments.antt =====
-- service/momentstore.go: the moments that recipes produce, their members and the user's edits.
-- Moments/Rows has the tables, Moments/Derived the replay of edits and the derived columns, Moments/Sync
-- the synchronisation with a recipe's drafts, and Moments/Calls what the user does to a moment.
pub mod Rows
pub mod Derived
pub mod Sync
pub mod Calls
pub mod Written
pub mod Membership
pub mod Marks
pub mod Gone
pub mod Fresh
pub mod Edited
mod Examples
