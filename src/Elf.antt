-- ===== src/Elf.antt =====
-- apps/elf.c: checking the payload's headers and loading its segments. The payload is read from
-- memory at its address; a field of a header is the little-endian number at its offset.
pub mod Header
pub mod Load
pub mod Region
