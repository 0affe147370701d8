-- ===== src/Runtime.antt =====
-- runtime.py: `ActionRuntime`, one module for each operation, over what they share.
pub mod Common
pub mod Prepare
pub mod Decide
pub mod Settle
pub mod Execute
pub mod Reconcile
pub mod Erase
pub mod Read
pub mod Walk
pub mod Stability
pub mod Admission
pub mod Settlement
pub mod Reading
pub mod Advice
pub mod Export
pub mod Answers
pub mod Session
pub mod Compensation
pub mod Exclusion
