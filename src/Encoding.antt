-- ===== src/Encoding.antt =====
-- Byte encodings: gno.land/p/onbloc/encoding.
pub mod Word
pub mod Abi
pub mod Hex
pub mod Decimal
