-- ===== src/Access.antt =====
-- Access control: gno.land/p/onbloc/access/manager and the realm gno.land/r/onbloc/ibc/union/access.
pub mod TimePoint
pub mod Delay
pub mod Role
pub mod Target
pub mod State
pub mod Realm
mod Tests
