-- ===== src/Tests.antt =====
-- Runs of the model at concrete inputs, for the conditions of the theorems.
mod Collections
mod Versions
mod Values
mod Queues
mod Defaults
mod Restrictions
mod Validations
mod Updates
mod Queries
mod Comparisons
mod Setters
mod Edits
mod Errors
