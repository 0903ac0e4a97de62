-- ===== src/Lib.antt =====
-- A model of maloader, a loader that runs Mach-O executables on Linux, and what holds of it.
--
-- The program maps a file (main.c), walks over its load commands, builds the image in memory, fixes
-- its pointers up, resolves its imports against the host's libraries (bind.c) and calls `_main`. Its
-- state is one `mach_context` (machctrl.h), which every part reads and writes, and the memory.
--
-- Machine is that state: a partial map from addresses to bytes, the context, and the two handles that
-- bind.c caches. A C function is a command on it, which returns, faults (an access to memory that is
-- not mapped, or other undefined behaviour), or exits. The children of Machine hold the laws: Memory
-- and Stores for bytes and words, Windows for a part of the memory that stays as it is; Runs, Evolves,
-- Ends, Yields, Results, Commands, Spares, Steady and Footprint for families of commands that are
-- closed under sequence and branching.
-- Formats reads the structs of mach-o/loader.h, mach-o/nlist.h, mach-o/fixup-chains.h and the
-- constants of mach-o/fixup-compat.h from memory, little-endian and at the offsets that C gives them.
-- Host is what the program calls and does not implement: the file mapping, mmap, dlopen, dlsym, and
-- the addresses of its own shims. MapsFresh states what is documented of an anonymous mmap.
-- Segments (main.c): alignMemory, ensure_image_mapping_64, load_segment, load_segment_64, and the
-- table of segments. Alignment, Extents, Placement and Image are about where segments land, Contents
-- and Copies about the bytes that land there.
-- Fixups (main.c): the chained64 fields, dump_chained_fixups, and the walk over pages and chains. Walk,
-- Prefix, Pages, Starts and Payload read a payload as a list of links, a level at a time; Confined and
-- Metadata are about what the application of a link leaves alone.
-- Imports (bind.c): the shims, the normalisation of names, the lookup and apply_chained_bind.
-- Uleb (bind.c): read_uleb128. Bind (bind.c, and dylib_list_retriever of main.c):
-- bind_list_retriever and do_bind; Operations gives the opcodes as a language, Bindable and Libraries a
-- bind list whose words are bound by one library after the other. Symbols (main.c): the
-- LC_SYMTAB branches. Loader (main.c): loader, loader_64 and their dispatch; Layout, Ranges, Contents,
-- Image, Whole and Loaded follow the segments among the load commands. Program (main.c):
-- openExec, determineBit and main, up to the call of the entry point. Shims (bind.c): the bodies of the
-- functions that the loaded program calls, with the C library as a parameter. Printing (main.c,
-- bind.c): what is printed of a segment and of the bind list. Examples runs the whole on
-- small files, and holds an instance of each theorem.
--
-- Numbers are natural numbers; each wrap-around of the source is written out. Loops whose end depends
-- on data take fuel: a text ends with the address space (2 ^ 64 rounds), and the ULEB128 and opcode
-- loops read a byte below their end in each round, so that one round more than there are bytes is
-- enough. Every other loop counts rounds that the file gives. Overlapping memcpy regions fault, as do
-- shifts of 64 bits or more. Allocations succeed. The counters of entries and commands, which are ints,
-- are not bounded at 2 ^ 31. The tables of the chained fixups are read once, where main.c reads some of
-- their fields again in each round, which differs only where a link lies in the tables.
--
-- Not modelled: what the loader prints as it goes, and the reads that only printing makes; the loaded
-- program itself.

pub mod Common
pub mod Machine
pub mod Formats
pub mod Host
pub mod Segments
pub mod Imports
pub mod Fixups
pub mod Uleb
pub mod Bind
pub mod Symbols
pub mod Loader
pub mod Printing
pub mod Program
pub mod Shims
pub mod Examples
