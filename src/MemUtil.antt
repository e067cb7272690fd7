-- ===== src/MemUtil.antt =====
-- The utility functions of lib/memutil. Memory is a function from addresses to bytes, and a pointer
-- is an address, so that buffers may overlap.
pub mod Memory
pub mod Strings
pub mod Decimal
pub mod Tokens
mod Tests
