-- ===== src/Interventions.antt =====
-- backend/src/replayforge/interventions: control leases, interventions and their coordination.
pub mod Owner
pub mod Lease
pub mod Context
pub mod Intervention
pub mod LeaseRules
pub mod LeaseService
pub mod LeaseCalls
pub mod Transition
pub mod Store
pub mod Plans
pub mod Coordinator
pub mod Router
pub mod Samples
pub mod HumanInput
pub mod Listing
pub mod Trace
