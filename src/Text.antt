-- ===== src/Text.antt =====
-- Character classes and C strings: apps/lib/ctype.c, apps/lib/hexdump.c, apps/lib/string.c and
-- inc/dragonstub/linux/ctype.h. A `char *` is the list of the bytes from it on, each below 256;
-- the string ends at the first zero byte or at the end of the list.
pub mod CType
pub mod Str
pub mod Hex
pub mod Compare
pub mod Search
