-- ===== src/Formats/Commands.antt =====
-- The load commands that carry segments and their sections (mach-o/loader.h).
use maloader.Common.{ℕ, Option, some, List}
use maloader.Machine.{Mem, read_le, read_bytes}
use maloader.Formats.Optional.{◌>>=◌, u32_at, u64_at, chars_at}

pub record SegmentCommand : Type 0 where
  pub cmd : ℕ
  pub cmdsize : ℕ
  pub segname : List ℕ
  pub vmaddr : ℕ
  pub vmsize : ℕ
  pub fileoff : ℕ
  pub filesize : ℕ
  pub maxprot : ℕ
  pub initprot : ℕ
  pub nsects : ℕ
  pub flags : ℕ

unfoldable pub read_segment_command : Mem → ℕ → Option SegmentCommand
unfolding read_le read_bytes
read_segment_command mem p = do
  cmd ← u32_at mem p 0
  cmdsize ← u32_at mem p 4
  segname ← chars_at mem p 8
  vmaddr ← u32_at mem p 24
  vmsize ← u32_at mem p 28
  fileoff ← u32_at mem p 32
  filesize ← u32_at mem p 36
  maxprot ← u32_at mem p 40
  initprot ← u32_at mem p 44
  nsects ← u32_at mem p 48
  flags ← u32_at mem p 52
  some (record {
    cmd = cmd;
    cmdsize = cmdsize;
    segname = segname;
    vmaddr = vmaddr;
    vmsize = vmsize;
    fileoff = fileoff;
    filesize = filesize;
    maxprot = maxprot;
    initprot = initprot;
    nsects = nsects;
    flags = flags;
  })

pub record SegmentCommand64 : Type 0 where
  pub cmd : ℕ
  pub cmdsize : ℕ
  pub segname : List ℕ
  pub vmaddr : ℕ
  pub vmsize : ℕ
  pub fileoff : ℕ
  pub filesize : ℕ
  pub maxprot : ℕ
  pub initprot : ℕ
  pub nsects : ℕ
  pub flags : ℕ

unfoldable pub read_segment_command_64 : Mem → ℕ → Option SegmentCommand64
unfolding read_le read_bytes
read_segment_command_64 mem p = do
  cmd ← u32_at mem p 0
  cmdsize ← u32_at mem p 4
  segname ← chars_at mem p 8
  vmaddr ← u64_at mem p 24
  vmsize ← u64_at mem p 32
  fileoff ← u64_at mem p 40
  filesize ← u64_at mem p 48
  maxprot ← u32_at mem p 56
  initprot ← u32_at mem p 60
  nsects ← u32_at mem p 64
  flags ← u32_at mem p 68
  some (record {
    cmd = cmd;
    cmdsize = cmdsize;
    segname = segname;
    vmaddr = vmaddr;
    vmsize = vmsize;
    fileoff = fileoff;
    filesize = filesize;
    maxprot = maxprot;
    initprot = initprot;
    nsects = nsects;
    flags = flags;
  })

pub record Section : Type 0 where
  pub sectname : List ℕ
  pub segname : List ℕ
  pub addr : ℕ
  pub size : ℕ
  pub offset : ℕ
  pub align : ℕ
  pub reloff : ℕ
  pub nreloc : ℕ
  pub flags : ℕ
  pub reserved1 : ℕ
  pub reserved2 : ℕ

unfoldable pub read_section : Mem → ℕ → Option Section
unfolding read_le read_bytes
read_section mem p = do
  sectname ← chars_at mem p 0
  segname ← chars_at mem p 16
  addr ← u32_at mem p 32
  size ← u32_at mem p 36
  offset ← u32_at mem p 40
  align ← u32_at mem p 44
  reloff ← u32_at mem p 48
  nreloc ← u32_at mem p 52
  flags ← u32_at mem p 56
  reserved1 ← u32_at mem p 60
  reserved2 ← u32_at mem p 64
  some (record {
    sectname = sectname;
    segname = segname;
    addr = addr;
    size = size;
    offset = offset;
    align = align;
    reloff = reloff;
    nreloc = nreloc;
    flags = flags;
    reserved1 = reserved1;
    reserved2 = reserved2;
  })

pub record Section64 : Type 0 where
  pub sectname : List ℕ
  pub segname : List ℕ
  pub addr : ℕ
  pub size : ℕ
  pub offset : ℕ
  pub align : ℕ
  pub reloff : ℕ
  pub nreloc : ℕ
  pub flags : ℕ
  pub reserved1 : ℕ
  pub reserved2 : ℕ
  pub reserved3 : ℕ

unfoldable pub read_section_64 : Mem → ℕ → Option Section64
unfolding read_le read_bytes
read_section_64 mem p = do
  sectname ← chars_at mem p 0
  segname ← chars_at mem p 16
  addr ← u64_at mem p 32
  size ← u64_at mem p 40
  offset ← u32_at mem p 48
  align ← u32_at mem p 52
  reloff ← u32_at mem p 56
  nreloc ← u32_at mem p 60
  flags ← u32_at mem p 64
  reserved1 ← u32_at mem p 68
  reserved2 ← u32_at mem p 72
  reserved3 ← u32_at mem p 76
  some (record {
    sectname = sectname;
    segname = segname;
    addr = addr;
    size = size;
    offset = offset;
    align = align;
    reloff = reloff;
    nreloc = nreloc;
    flags = flags;
    reserved1 = reserved1;
    reserved2 = reserved2;
    reserved3 = reserved3;
  })

-- sizeof(struct segment_command)
abbrev pub sizeof_segment_command : ℕ
sizeof_segment_command = 56

-- sizeof(struct segment_command_64)
abbrev pub sizeof_segment_command_64 : ℕ
sizeof_segment_command_64 = 72

-- sizeof(struct section)
abbrev pub sizeof_section : ℕ
sizeof_section = 68

-- sizeof(struct section_64)
abbrev pub sizeof_section_64 : ℕ
sizeof_section_64 = 80

abbrev pub lc_req_dyld : ℕ
lc_req_dyld = 0x80000000

abbrev pub lc_segment : ℕ
lc_segment = 0x1

abbrev pub lc_symtab : ℕ
lc_symtab = 0x2

abbrev pub lc_dysymtab : ℕ
lc_dysymtab = 0xb

abbrev pub lc_load_dylib : ℕ
lc_load_dylib = 0xc

abbrev pub lc_load_dylinker : ℕ
lc_load_dylinker = 0xe

abbrev pub lc_segment_64 : ℕ
lc_segment_64 = 0x19

abbrev pub lc_dyld_info : ℕ
lc_dyld_info = 0x22

-- The two that have LC_REQ_DYLD set.
abbrev pub lc_dyld_exports_trie : ℕ
lc_dyld_exports_trie = 0x80000033

abbrev pub lc_dyld_chained_fixups : ℕ
lc_dyld_chained_fixups = 0x80000034
