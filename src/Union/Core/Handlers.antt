-- ===== src/Union/Core/Handlers.antt =====
-- What each handler of core/v1 does to the store, and that it follows the protocol.
pub mod Leaves
pub mod Connections
pub mod Channels
pub mod Packets
pub mod Receive
pub mod Settle
pub mod Batches
pub mod Clients
pub mod Refinement
