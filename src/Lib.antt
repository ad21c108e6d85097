-- ===== src/Lib.antt =====
-- Verification of the Keystone SDK: the host's edge-call library, its creation, measurement and run of
-- an enclave, the verifier of attestation reports, and the enclave's C runtime.
--
-- The SDK lets an untrusted host start an enclave and talk to it. The two share one region of
-- memory; an edge call is a record at the region's start that names its arguments and results by
-- offsets into the region. The host's library, lib/edge, checks these offsets, looks up the
-- handler of a call, and serves ten system calls for the enclave. lib/host creates an enclave: it
-- opens two ELF files, asks the driver for memory, loads the segments into pages that it maps in page
-- tables, and runs the enclave, dispatching an edge call at each stop. A simulated enclave lives in the
-- host's own memory and is measured there: its page table is walked, validated and hashed. lib/verifier
-- checks the hashes and signatures of an attestation report. The enclave's library, lib/app, has its own
-- string functions and an allocator that grows its heap through the runtime's `s_brk`.
--
-- Which file models what
--   Base          shared names, Boolean tests, lists over the native numbers, 64-bit words with
--                 the wrap written out, and lemmas on bitwise operations.
--   Memory        the byte-addressed, little-endian memory that all pointers of the C code
--                 address; Memory/Laws has the laws of its loads and stores.
--   Edge/Shared   lib/edge/src/edge_call.c, the checks: `edge_call_get_ptr_from_offset` is
--                 `get_ptr_from_offset`, and so on without the prefix. An out parameter and a
--                 code are a `Checked`.
--   Edge/Call     the rest of edge_call.c over the structures of lib/edge/include/edge_common.h.
--                 A record lies in memory at a pointer, with its fields at fixed offsets.
--   Edge/World    a handler as a function of the buffer and of the memory with the system's
--                 state.
--   Edge/Dispatch lib/edge/src/edge_dispatch.c. The table is a list of 40 entries; an access
--                 outside it is `fault`.
--   Edge/Syscall  lib/edge/src/edge_syscall.c: `incoming_syscall` with one function per case. The
--                 operating system is the parameter `Kernel`: each call is any function of its
--                 arguments, the memory and the system's state. What a call does to the memory is
--                 not restricted.
--   App/Str       lib/app/src/string.c, the word-wise paths of `memcpy` and `memset` included.
--   App/Malloc    lib/app/src/tiny-malloc.c, `malloc`, `free`, `calloc` and `realloc` with
--                 `MALLOC_DIRECTION` 1. The labels and the branches of a loop body are functions
--                 of their own. App/Malloc/Blocks is the abstract view, a list of free blocks
--                 with `alloc` and `release`; Grant and Giving show that the code on the linked
--                 list in memory implements them. App/Malloc/Cleared has `calloc`,
--                 App/Malloc/Resized `realloc`, App/Malloc/Aligned `memalign` and the functions that
--                 call it, and App/Malloc/Backed the call of the runtime.
--   App/Calls     lib/app/src/syscall.c; the `ecall` instruction is a parameter.
--   Host/Measure  lib/host/include/hash_util.h, `validate_and_hash_epm`, over a page table in
--                 memory for riscv64; the hash is a parameter. Host/Measure/Leaves lists the
--                 mappings that a table holds, independently of the walk.
--   Host/Common   lib/host/include/common.h, keystone_user.h and params.h: rounding, modes, codes.
--   Host/Page     lib/host/include/page.h: entries, `__ept_walk`, `__ept_walk_create`,
--                 `epm_alloc_vspace`, `epm_va_to_pa`. Host/Page/Tables is the abstract view: the
--                 tables in memory are a tree (`IsTables`), and stand for the partial map
--                 `translate`. Added, Next and Create follow a walk that creates tables, Leaf an
--                 entry that is set, Filled a page of data, and Vspace a range of pages.
--   Host/Memory   lib/host/src/memory.cpp, simulated and physical enclave memory.
--   Host/Elf      lib/host/src/elffile.cpp over the ELF library, the parameter `Libelf`.
--   Host/Device   the structures of keystone_user.h and the parameters: the driver, SHA-3, `calloc`.
--   Host/Enclave  lib/host/src/keystone.cpp: the fields of `Keystone`, `allocPage`, `initStack`,
--                 `loadUntrusted`. Enclave/Alloc, Mapped and Stack have their theorems.
--   Host/Load     `loadELF`, one function per part of its loop body. Load/Content says what mapped
--                 memory holds, Load/Loops, Rest and Segment follow the loops, Load/Headers and
--                 Load/Whole the file.
--   Host/Init     `initFiles`, `initDevice`, `prepareEnclave`, `destroy`, the destructor and the
--                 measurement; Init/Create is `init`, Init/Run is `run`. Init/Closed and
--                 Init/Run/Rounds have their theorems. Host/Sample is an enclave for the tests.
--   Verifier      lib/verifier/report.cpp, report.h and keys.h: a report, its bytes and its checks.
--                 Verifier/Text has its hexadecimal and JSON forms, with the keys and the nesting of
--                 the JSON objects; Text/Hex and Text/Roundtrip have their theorems.
--
-- The parts meet in the memory: the edge library reads and writes the records through Memory, the
-- system call proxy uses the range checks and the set-up of results of edge_call.c, the
-- dispatcher takes the proxy as an argument. `run` calls such a dispatcher as a `Handler` on the shared
-- buffer. The page tables that `allocPage` builds are those that the measurement walks.
--
-- Bounds and fuel
--   Words have 64 bits, as on riscv64, and an `int` result is kept as its 32-bit pattern, so that
--   -1 is 2^32 - 1, and is sign-extended where the source converts it. The `int` index of `strcpy`
--   that would overflow gives none. Loops over memory that end at a byte or at a null pointer
--   recur on fuel and return none when it is used up: `strlen`, `strcpy`, `memcpy` and `memset`
--   need one more than the number of bytes, `malloc` and `free` one more than the number of free
--   blocks. The theorems give that fuel and state the result. Loops that count down recur on their
--   count. The measurement walk recurs on the level below the present one and on the entries left,
--   512 in a table. A walk that creates page tables recurs on fuel, of which 3 is enough, since at
--   most two tables are missing. The loops of `loadELF` need fuel above the number of pages of a
--   segment, the loop of `run` above the number of stops; an enclave that never ends uses up any
--   fuel. The theorems on pages are about simulated memory, in which a pointer is an address; they
--   give the room in the enclave's memory that is needed, three pages for each page.
--
-- Not modelled
--   The statistics and options of tiny-malloc.c, under macros that the build does not define; the
--   example enclaves and the benchmarks. SHA-3, Ed25519, the ELF library and the JSON library are
--   copies of other projects, and parameters here, as are the driver, the operating system, the C
--   library and the hexadecimal numbers of the C++ streams. Messages, `printHash`, `printJson` and
--   `printPretty` only print. `CALL_STATUS` codes other than the three that the library sets are
--   left to the handlers. The checks of tiny-malloc.c for a heap that grows downwards are constant
--   in this build, and so is USE_FREEMEM, which is not defined. The structures of
--   lib/host/include/common.h for oblivious memory are used by nothing in lib.
pub mod App
pub mod Base
pub mod Edge
pub mod Host
pub mod Memory
pub mod Verifier
