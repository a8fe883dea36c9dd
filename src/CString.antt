-- ===== src/CString.antt =====
-- string_verified.c over a flat byte memory. A `char` is its bit pattern, a number below 256;
-- a pointer is an address; a `size_t` count is a number. A loop with no counter takes fuel, and
-- `none` says that the fuel ran out.
pub mod Memory
pub mod Copy
pub mod Compare
pub mod Scan
pub mod Ffs
