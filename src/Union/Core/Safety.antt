-- ===== src/Union/Core/Safety.antt =====
-- What the host promises over any history of calls.
pub mod Pairs
pub mod Settling
pub mod Sending
pub mod Receiving
pub mod Channels
pub mod Timeouts
pub mod Replay
