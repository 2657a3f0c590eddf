-- ===== src/Manager.antt =====
-- router/engines.py, `EngineManager`: the swap state machine. `State` holds what the manager keeps
-- and the effects of its methods between two awaits, `Step` the awaits themselves.
pub mod State
pub mod Step
pub mod Frame
pub mod Reach
pub mod Accounting
pub mod Exclusion
pub mod Safety
pub mod Failure
pub mod Report
pub mod Patience
pub mod Termination
pub mod Mirror
pub mod Settle
pub mod Service
pub mod Spec
pub mod Startup
pub mod Examples
