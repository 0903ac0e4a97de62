-- ===== src/Loader.antt =====
-- The load commands (main.c): loader_64 and loader, and the dispatch on a command.

pub mod Evolution
pub mod Termination
pub mod Invariant
pub mod Outcome
pub mod Steadiness
pub mod Layout
pub mod Ranges
pub mod Contents
pub mod Image
pub mod Whole
pub mod Loaded
use maloader.Common.{ℕ, zero, suc, ◌+◌, ◌^◌, bit_and, ◌==◌, ltb, if◌then◌else◌, not}
use maloader.Machine.{
  when◌then◌else◌, Cmd, pure, unit, ◌>>=◌, ◌>>◌, reads, get_context, set_context, advance_ptr,
  Status, success, failure, in_file, u64,
}
use maloader.Formats.Header.{
  read_mach_header, read_mach_header_64, mh_execute, sizeof_mach_header, sizeof_mach_header_64,
}
use maloader.Formats.Commands.{
  read_segment_command, read_segment_command_64, sizeof_segment_command, sizeof_section,
  sizeof_section_64, lc_segment, lc_segment_64, lc_symtab, lc_dysymtab, lc_load_dylib, lc_dyld_info,
  lc_dyld_exports_trie, lc_dyld_chained_fixups,
}
use maloader.Formats.Tables.{
  read_symtab_command, read_dysymtab_command, read_dyld_info_command, read_dylib_command,
  read_linkedit_data_command,
}
use maloader.Symbols.{symbols, symbols_64}
use maloader.Host.{Host}
use maloader.Segments.{load_segment, load_segment_64, load_section, load_section_64}
use maloader.Fixups.{dump_chained_fixups}
use maloader.Bind.{bind_list_retriever, dylib_list_retriever}

-- An LC_DYLD_INFO or LC_DYLD_INFO_ONLY: the bind opcodes, then the lazy ones.
unfoldable pub load_dyld_info : Cmd (Unit {0})
unfolding bind_list_retriever
load_dyld_info = do
  c ← get_context
  dyld_info ← reads λ mem. read_dyld_info_command mem c.ptr
  let start = u64 (c.memblock + dyld_info.bind_off)
  bind_list_retriever start (u64 (start + dyld_info.bind_size))
  let lazy_start = u64 (c.memblock + dyld_info.lazy_bind_off)
  bind_list_retriever lazy_start (u64 (lazy_start + dyld_info.lazy_bind_size))

-- An LC_LOAD_DYLIB: the name stays in the file.
unfoldable pub load_dylib : Cmd (Unit {0})
unfolding dylib_list_retriever
load_dylib = do
  c ← get_context
  lib ← reads λ mem. read_dylib_command mem c.ptr
  set_context (dylib_list_retriever (in_file (u64 (c.ptr + lib.name_offset))))

unfoldable pub load_dysymtab : Cmd (Unit {0})
load_dysymtab = do c ← get_context; _ ← reads λ mem. read_dysymtab_command mem c.ptr; unit

unfoldable pub load_chained_fixups : Host → Cmd (Unit {0})
unfolding dump_chained_fixups
load_chained_fixups h = do
  c ← get_context
  fixups ← reads λ mem. read_linkedit_data_command mem c.ptr
  dump_chained_fixups h fixups.dataoff fixups.datasize

-- An LC_DYLD_EXPORTS_TRIE is read, and only printed.
unfoldable pub load_exports_trie : Cmd (Unit {0})
load_exports_trie = do c ← get_context; _ ← reads λ mem. read_linkedit_data_command mem c.ptr; unit

-- `int` from a uint32_t: the rounds of a loop up to it, none for a negative one.
abbrev pub int_rounds : ℕ → ℕ
int_rounds n = if ltb n (2 ^ 31) then n else 0

unfoldable pub sections_64 : (rounds : ℕ) → Cmd (Unit {0})
unfolding load_section_64
sections_64 zero = unit
sections_64 (suc rounds) = do
  _ ← load_section_64
  advance_ptr sizeof_section_64
  _ ← unit
  sections_64 rounds

unfoldable pub sections : (rounds : ℕ) → Cmd (Unit {0})
unfolding load_section
sections zero = unit
sections (suc rounds) = do _ ← load_section; advance_ptr sizeof_section; _ ← unit; sections rounds

-- The move to the next command: past the sections of a segment that has some, by `cmdsize` else.
-- 0x48 is sizeof(struct segment_command_64).
unfoldable pub pass_segment_64 : (n_section cmdsize : ℕ) → Cmd (Unit {0})
unfolding sections_64
pass_segment_64 n_section cmdsize =
    when not (n_section == 0)
    then (do advance_ptr 0x48; sections_64 (int_rounds n_section))
    else advance_ptr cmdsize

unfoldable pub pass_segment : (n_section cmdsize : ℕ) → Cmd (Unit {0})
unfolding sections
pass_segment n_section cmdsize =
    when not (n_section == 0)
    then (do advance_ptr sizeof_segment_command; sections (int_rounds n_section))
    else advance_ptr cmdsize

-- What the 64-bit loader does for a command that is no segment.
unfoldable pub run_command_64 : Host → (cmd : ℕ) → Cmd (Unit {0})
unfolding load_dyld_info symbols_64 load_dysymtab load_dylib load_chained_fixups load_exports_trie
run_command_64 h cmd =
    when bit_and cmd 0xFF == lc_dyld_info
    then load_dyld_info
    else when cmd == lc_symtab
    then (do
      c ← get_context
      symtab ← reads λ mem. read_symtab_command mem c.ptr
      symbols_64 symtab symtab.nsyms 0)
    else when cmd == lc_dysymtab
    then load_dysymtab
    else when cmd == lc_load_dylib
    then load_dylib
    else when cmd == lc_dyld_chained_fixups
    then load_chained_fixups h
    else when cmd == lc_dyld_exports_trie
    then load_exports_trie
    else unit

unfoldable pub run_command : (cmd : ℕ) → Cmd (Unit {0})
unfolding load_dyld_info symbols load_dysymtab load_dylib
run_command cmd =
    when bit_and cmd 0xFF == lc_dyld_info
    then load_dyld_info
    else when cmd == lc_symtab
    then (do
      c ← get_context
      symtab ← reads λ mem. read_symtab_command mem c.ptr
      symbols symtab symtab.nsyms 0)
    else when cmd == lc_dysymtab
    then load_dysymtab
    else when cmd == lc_load_dylib
    then load_dylib
    else unit

unfoldable pub load_command_64 : Host → Cmd (Unit {0})
unfolding pass_segment_64 run_command_64 load_segment_64
load_command_64 h = do
  c ← get_context
  command ← reads λ mem. read_segment_command_64 mem c.ptr
  when command.cmd == lc_segment_64
      then (do n_section ← load_segment_64 h; pass_segment_64 n_section command.cmdsize)
      else (do run_command_64 h command.cmd; advance_ptr command.cmdsize)

unfoldable pub load_command : Host → Cmd (Unit {0})
unfolding pass_segment run_command load_segment
load_command h = do
  c ← get_context
  command ← reads λ mem. read_segment_command mem c.ptr
  when command.cmd == lc_segment
      then (do n_section ← load_segment h; pass_segment n_section command.cmdsize)
      else (do run_command command.cmd; advance_ptr command.cmdsize)

-- The rounds are counted in an int, which has 31 bits for them.
unfoldable pub load_commands_64 : Host → (rounds : ℕ) → Cmd (Unit {0})
unfolding load_command_64
load_commands_64 h zero = unit
load_commands_64 h (suc rounds) = do _ ← load_command_64 h; load_commands_64 h rounds

unfoldable pub load_commands : Host → (rounds : ℕ) → Cmd (Unit {0})
unfolding load_command
load_commands h zero = unit
load_commands h (suc rounds) = do _ ← load_command h; load_commands h rounds

-- `context->ptr = context->memblock`
abbrev pub rewind : Cmd (Unit {0})
rewind = set_context λ c. record c { ptr = c.memblock }

unfoldable pub loader_64 : Host → Cmd Status
unfolding load_commands_64
loader_64 h = do
  rewind
  c ← get_context
  header ← reads λ mem. read_mach_header_64 mem c.ptr
  when not (header.filetype == mh_execute) then pure failure else (do
    advance_ptr sizeof_mach_header_64
    c' ← get_context
    _ ← reads λ mem. read_segment_command_64 mem c'.ptr
    load_commands_64 h header.ncmds
    pure success)

-- The 32-bit loader reports a failure in every case.
unfoldable pub loader : Host → Cmd Status
unfolding load_commands
loader h = do
  rewind
  c ← get_context
  header ← reads λ mem. read_mach_header mem c.ptr
  when not (header.filetype == mh_execute) then pure failure else (do
    advance_ptr sizeof_mach_header
    c' ← get_context
    _ ← reads λ mem. read_segment_command mem c'.ptr
    load_commands h header.ncmds
    pure failure)
