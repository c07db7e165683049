-- ===== src/Durable/Store.antt =====
-- src/xyberos/durable/store.py: `JournalStore`.
pub mod Writes
pub mod Success
pub mod Explanation
pub mod Claims
pub mod Steps
pub mod Endings
pub mod Evolution
pub mod Submission
pub mod History
pub mod Refusals
pub mod Fencing
pub mod Oldest
pub mod Claiming
pub mod Exclusion
pub mod Spent
pub mod Attempts
pub mod Durability
pub mod Idempotence
pub mod Resubmission
pub mod Inspection
pub mod Landing
