-- ===== src/Smart.antt =====
-- router/smart.py, `SmartRouter`: health, scoring and selection.
pub mod Floats
pub mod Health
pub mod Pick
pub mod Candidates
pub mod Checks
pub mod Gather
pub mod Classify
pub mod Score
pub mod Request
pub mod Examples
