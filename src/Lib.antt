-- ===== src/Lib.antt =====
-- DragonStub is the UEFI stub of the DragonOS kernel: it is started by the firmware with the kernel
-- as an ELF payload, loads the payload, builds the kernel's device tree, leaves boot services and
-- enters the kernel. This library models its own code for 64-bit RISC-V.
--
-- Machine is the state that all parts share: memory as bytes at addresses, the global variables,
-- and the history of the calls made to the firmware. The firmware is a parameter, a record of
-- functions that answer each call from the history, and libfdt is a parameter too, a record of
-- functions on memory. A stateful function is a function of the state, written with do blocks.
-- Where a proof needs the firmware to keep to its specification, a record of laws says so
-- (GrantsPages of Pages/Ownership: AllocatePages grants whole free pages below the maximum; LetsGo of
-- Boot/Leaves: ExitBootServices refuses a key only as stale; ReadsBack of Fdt/Memmap and KeepsTree of
-- Fdt/Values: what was set in the tree is read there).
--
-- The parts, and the code they model:
--   Align      the macros of inc/dragonstub/linux/align.h, math.h and const.h on 64-bit words
--   Bytes      memset, memcpy and memmove of lib/init.c on memory
--   ByteOrder  the swaps of inc/dragonstub/linux/swab.h and the conversions of byteorder.h and
--              byteorder_little_endian.h
--   Pages      apps/mem.c and apps/alignedmem.c: the memory map, and pages and pools
--   Text       apps/lib/string.c, ctype.c and hexdump.c, and memcmp of lib/init.c; a string is the
--              list of its bytes, and a pointer into it the rest of the list. Text/Search has the
--              searches over memory: __strchrnul and memchr of lib/init.c a word at a time, strchr,
--              strrchr and memrchr
--   CmdLine    apps/lib/cmdline.c, and of apps/helper.c the options, the conversion of the UEFI
--              command line and the measured event
--   Elf        apps/elf.c: the headers (Elf/Header), the loader (Elf/Load) and
--              check_image_region (Elf/Region)
--   Boot       efi_exit_boot_services of apps/helper.c, the virtual address map of apps/stub.c
--   Platform   apps/riscv-stub.c, apps/secureboot.c, apps/random.c, configuration tables and
--              run time services
--   Fdt        the device tree of apps/fdt.c, over libfdt
--   Handover   exit_boot_func to efi_boot_kernel of apps/fdt.c, and of apps/stub.c the payload, the
--              command line and efi_stub_common; Handover/Main efi_main of apps/dragon_stub-main.c
--   Printf     apps/lib/vsprintf.c: numbers (Number, Decimal), strings (Text), what follows %p
--              (Pointer), the reading of a format (Format) and vsnprintf (Print). The output is the
--              bytes of the buffer by their index and the index of the next one; a child named
--              Shown has the text that a function is to write, and the proof that it writes it
--   Tests      a firmware, a libfdt and inputs at which the theorems are applied
--
-- Where the code stops for ever in efi_todo, a status is `standstill`, which is no 64-bit word, and
-- the stub's outcome is `stopped`.
--
-- Words keep their width: u64 and u32 of Align cut a result, sub64 wraps below zero, and an int is
-- its 32-bit word. Where the count of get_options leaves the range of an int, which C does not
-- define, the reading ends as `overflow`. The loops of parse_option_str and get_options have as
-- fuel one more than the length of the string, and that of efi_parse_options one more than the
-- length of its buffer; each round of these loops goes forward, so the fuel is enough. The loop of
-- vsnprintf has as fuel the length of the format, and each token takes at least one byte of it; the
-- loop over octal and hexadecimal digits has the 24 bytes of its buffer, and a 64-bit number has at
-- most 22 digits. The searches for a terminator take fuel that reaches it, as their theorems say,
-- and the word loop of memchr has a round for each byte. All other loops are recursions on a list
-- or a count.
--
-- Not modelled: messages, which do not change the state, what is not configured, the write of the
-- register satp, other processors, and the copies of other projects' libraries: gnu-efi under lib,
-- gnuefi and inc, and libfdt under apps/lib/libfdt.
pub mod Base
pub mod Machine
pub mod Align
pub mod Bytes
pub mod ByteOrder
pub mod Pages
pub mod Text
pub mod CmdLine
pub mod Elf
pub mod Boot
pub mod Platform
pub mod Fdt
pub mod Handover
pub mod Printf
mod Tests
