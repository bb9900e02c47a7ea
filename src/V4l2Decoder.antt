-- ===== src/V4l2Decoder.antt =====
-- src/v4l2_decoder.c: the stateful decoder over a V4L2 memory-to-memory device.
pub mod Device
pub mod Setup
pub mod Queues
pub mod Submission
pub mod Closing
pub mod Sizes
pub mod Outcomes
pub mod Safety
mod SafeSetup
mod SafePump
pub mod Filling
pub mod Feeding
pub mod Delivery
pub mod Submitting
pub mod Liveness
mod Tests
pub mod Reachable
