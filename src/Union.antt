-- ===== src/Union.antt =====
-- Union IBC: gno.land/p/onbloc/ibc/union/types and the realm gno.land/r/onbloc/ibc/union/core.
pub mod Types
pub mod Msgs
pub mod Commitment
pub mod Core
