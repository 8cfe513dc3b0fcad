-- ===== src/Scheduler.antt =====
-- python/freetoken/scheduler/ and the request types of python/freetoken/core.py: the children hold
-- the request objects, the two managers, the scheduler over them, and the proofs.
pub mod Req
pub mod Refs
pub mod Adder
pub mod Prefill
pub mod Decode
pub mod Core
pub mod Forward
pub mod Completion
pub mod Lifecycle
pub mod Abort
pub mod Steps
pub mod Loop
pub mod Reach
pub mod Idle
pub mod Extends
pub mod Continue
pub mod Continued
