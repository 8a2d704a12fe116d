-- ===== src/Union/Core.antt =====
-- The IBC host: the proxy realm gno.land/r/onbloc/ibc/union/core, which owns the state, and the protocol
-- logic of its child realm v1.
pub mod World
pub mod Exec
pub mod Store
pub mod Clients
pub mod Connections
pub mod Channels
pub mod Packets
pub mod Calls
pub mod Protocol
pub mod Handlers
pub mod Safety
mod Tests
