-- ===== src/SmartViews.antt =====
-- service/smartview.go: the smart views of the table smart_views, and the assets that they hold in the
-- table smart_view_matches. Scores is the evaluation of the conditions, Evaluate its reconciliation
-- with the table, Manual the changes that a user makes; the others are proofs.
pub mod Scores
pub mod Selection
pub mod Conditions
pub mod Evaluate
pub mod Reconcile
pub mod Rows
pub mod Manual
pub mod Changes
pub mod Atomic
pub mod Membership
pub mod Refinement
mod Examples
