-- ===== src/Tests.antt =====
-- The theorems at concrete inputs.
mod Platform
mod Elf
mod Memory
mod Search
mod Text
mod Options
mod Handover
mod Tree
mod Update
mod Printf
