-- ===== src/Tests.antt =====
-- Runs of the library's theorems at concrete inputs, by the part of the program they are about.
mod Strings
mod Locks
mod Nestings
mod Numa
mod Events
mod Monitoring
mod Patches
mod Interrupts
mod Updates
mod Areas
mod Apics
mod States
mod Records
mod Debugging
mod Stacks
mod Features
mod Caches
mod Timers
