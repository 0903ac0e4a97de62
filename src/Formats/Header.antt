-- ===== src/Formats/Header.antt =====
-- `mach_header`, `mach_header_64` and their constants (mach-o/loader.h).
use maloader.Common.{ℕ, Option, some}
use maloader.Machine.{Mem, read_le, read_bytes}
use maloader.Formats.Optional.{◌>>=◌, u32_at}

pub record MachHeader : Type 0 where
  pub magic : ℕ
  pub cputype : ℕ
  pub cpusubtype : ℕ
  pub filetype : ℕ
  pub ncmds : ℕ
  pub sizeofcmds : ℕ
  pub flags : ℕ

unfoldable pub read_mach_header : Mem → ℕ → Option MachHeader
unfolding read_le read_bytes
read_mach_header mem p = do
  magic ← u32_at mem p 0
  cputype ← u32_at mem p 4
  cpusubtype ← u32_at mem p 8
  filetype ← u32_at mem p 12
  ncmds ← u32_at mem p 16
  sizeofcmds ← u32_at mem p 20
  flags ← u32_at mem p 24
  some (record {
    magic = magic;
    cputype = cputype;
    cpusubtype = cpusubtype;
    filetype = filetype;
    ncmds = ncmds;
    sizeofcmds = sizeofcmds;
    flags = flags;
  })

pub record MachHeader64 : Type 0 where
  pub magic : ℕ
  pub cputype : ℕ
  pub cpusubtype : ℕ
  pub filetype : ℕ
  pub ncmds : ℕ
  pub sizeofcmds : ℕ
  pub flags : ℕ
  pub reserved : ℕ

unfoldable pub read_mach_header_64 : Mem → ℕ → Option MachHeader64
unfolding read_le read_bytes
read_mach_header_64 mem p = do
  magic ← u32_at mem p 0
  cputype ← u32_at mem p 4
  cpusubtype ← u32_at mem p 8
  filetype ← u32_at mem p 12
  ncmds ← u32_at mem p 16
  sizeofcmds ← u32_at mem p 20
  flags ← u32_at mem p 24
  reserved ← u32_at mem p 28
  some (record {
    magic = magic;
    cputype = cputype;
    cpusubtype = cpusubtype;
    filetype = filetype;
    ncmds = ncmds;
    sizeofcmds = sizeofcmds;
    flags = flags;
    reserved = reserved;
  })

abbrev pub mh_magic : ℕ
mh_magic = 0xfeedface

abbrev pub mh_magic_64 : ℕ
mh_magic_64 = 0xfeedfacf

abbrev pub mh_execute : ℕ
mh_execute = 0x2

-- sizeof(struct mach_header)
abbrev pub sizeof_mach_header : ℕ
sizeof_mach_header = 28

-- sizeof(struct mach_header_64)
abbrev pub sizeof_mach_header_64 : ℕ
sizeof_mach_header_64 = 32
