-- ===== src/Srat.antt =====
-- srat_verified.c: the NUMA tables that are built from the firmware's SRAT and SLIT. An access
-- outside an array is a fault, `none`; an `unsigned` is a number below 2^32.
pub mod Tables
pub mod Pxm
pub mod Memblks
pub mod Slit
pub mod Cover
pub mod Affinity
pub mod Regions
pub mod Scan
