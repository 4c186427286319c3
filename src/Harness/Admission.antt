-- ===== src/Harness/Admission.antt =====
-- harness/admission.py: deduplication, capacity, and first-in-first-out execution per Workspace
-- session. `State` has the object's fields, `Ledger` what accounts for a delivery, `Admit` the
-- entry points, and `Permits` and `Tasks` the coroutines, one step between two awaits at a time.
pub mod State
pub mod Ledger
pub mod Admit
pub mod Again
pub mod Rates
pub mod Permits
pub mod Capacity
pub mod Tasks
pub mod Close
pub mod Unreleased
pub mod Balance
pub mod Cases
pub mod Run
pub mod Pool
pub mod Permitted
mod Examples
