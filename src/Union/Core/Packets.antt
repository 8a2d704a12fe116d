-- ===== src/Union/Core/Packets.antt =====
-- core/v1/packet.gno: the packet lifecycle, whose operations the children hold.
mod First
mod Send
mod Receive
mod Settle
mod Batches
pub use First.*
unfoldable pub use Send.*
unfoldable pub use Receive.*
unfoldable pub use Settle.*
unfoldable pub use Batches.*
