-- ===== src/Persons.antt =====
-- service/persons.go and MergePersons of service/search.go: the persons that the faces are grouped into.
-- Persons/Rows has the tables, Persons/Cover the choice of a cover, Persons/Edits and Persons/Purge the
-- calls.
pub mod Rows
pub mod Cover
pub mod Edits
pub mod Purge
pub mod Choice
pub mod Groups
pub mod Recomputed
pub mod Deletion
pub mod Invariant
pub mod Regrouped
pub mod Detached
pub mod Calls
pub mod OneRow
pub mod Merging
pub mod Scheduled
pub mod Grace
pub mod Dying
mod Examples
