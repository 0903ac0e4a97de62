-- ===== src/Formats/Tables.antt =====
-- The load commands that point into the file, and the symbol table (mach-o/loader.h, mach-o/nlist.h).
use maloader.Common.{ℕ, Option, some}
use maloader.Machine.{Mem, read_le, read_bytes}
use maloader.Formats.Optional.{◌>>=◌, byte_at, u16_at, u32_at, u64_at}

pub record SymtabCommand : Type 0 where
  pub cmd : ℕ
  pub cmdsize : ℕ
  pub symoff : ℕ
  pub nsyms : ℕ
  pub stroff : ℕ
  pub strsize : ℕ

unfoldable pub read_symtab_command : Mem → ℕ → Option SymtabCommand
unfolding read_le read_bytes
read_symtab_command mem p = do
  cmd ← u32_at mem p 0
  cmdsize ← u32_at mem p 4
  symoff ← u32_at mem p 8
  nsyms ← u32_at mem p 12
  stroff ← u32_at mem p 16
  strsize ← u32_at mem p 20
  some (record {
    cmd = cmd;
    cmdsize = cmdsize;
    symoff = symoff;
    nsyms = nsyms;
    stroff = stroff;
    strsize = strsize;
  })

pub record DysymtabCommand : Type 0 where
  pub cmd : ℕ
  pub cmdsize : ℕ
  pub ilocalsym : ℕ
  pub nlocalsym : ℕ
  pub iextdefsym : ℕ
  pub nextdefsym : ℕ
  pub iundefsym : ℕ
  pub nundefsym : ℕ
  pub tocoff : ℕ
  pub ntoc : ℕ
  pub modtaboff : ℕ
  pub nmodtab : ℕ
  pub extrefsymoff : ℕ
  pub nextrefsyms : ℕ
  pub indirectsymoff : ℕ
  pub nindirectsyms : ℕ
  pub extreloff : ℕ
  pub nextrel : ℕ
  pub locreloff : ℕ
  pub nlocrel : ℕ

unfoldable pub read_dysymtab_command : Mem → ℕ → Option DysymtabCommand
unfolding read_le read_bytes
read_dysymtab_command mem p = do
  cmd ← u32_at mem p 0
  cmdsize ← u32_at mem p 4
  ilocalsym ← u32_at mem p 8
  nlocalsym ← u32_at mem p 12
  iextdefsym ← u32_at mem p 16
  nextdefsym ← u32_at mem p 20
  iundefsym ← u32_at mem p 24
  nundefsym ← u32_at mem p 28
  tocoff ← u32_at mem p 32
  ntoc ← u32_at mem p 36
  modtaboff ← u32_at mem p 40
  nmodtab ← u32_at mem p 44
  extrefsymoff ← u32_at mem p 48
  nextrefsyms ← u32_at mem p 52
  indirectsymoff ← u32_at mem p 56
  nindirectsyms ← u32_at mem p 60
  extreloff ← u32_at mem p 64
  nextrel ← u32_at mem p 68
  locreloff ← u32_at mem p 72
  nlocrel ← u32_at mem p 76
  some (record {
    cmd = cmd;
    cmdsize = cmdsize;
    ilocalsym = ilocalsym;
    nlocalsym = nlocalsym;
    iextdefsym = iextdefsym;
    nextdefsym = nextdefsym;
    iundefsym = iundefsym;
    nundefsym = nundefsym;
    tocoff = tocoff;
    ntoc = ntoc;
    modtaboff = modtaboff;
    nmodtab = nmodtab;
    extrefsymoff = extrefsymoff;
    nextrefsyms = nextrefsyms;
    indirectsymoff = indirectsymoff;
    nindirectsyms = nindirectsyms;
    extreloff = extreloff;
    nextrel = nextrel;
    locreloff = locreloff;
    nlocrel = nlocrel;
  })

pub record DyldInfoCommand : Type 0 where
  pub cmd : ℕ
  pub cmdsize : ℕ
  pub rebase_off : ℕ
  pub rebase_size : ℕ
  pub bind_off : ℕ
  pub bind_size : ℕ
  pub weak_bind_off : ℕ
  pub weak_bind_size : ℕ
  pub lazy_bind_off : ℕ
  pub lazy_bind_size : ℕ
  pub export_off : ℕ
  pub export_size : ℕ

unfoldable pub read_dyld_info_command : Mem → ℕ → Option DyldInfoCommand
unfolding read_le read_bytes
read_dyld_info_command mem p = do
  cmd ← u32_at mem p 0
  cmdsize ← u32_at mem p 4
  rebase_off ← u32_at mem p 8
  rebase_size ← u32_at mem p 12
  bind_off ← u32_at mem p 16
  bind_size ← u32_at mem p 20
  weak_bind_off ← u32_at mem p 24
  weak_bind_size ← u32_at mem p 28
  lazy_bind_off ← u32_at mem p 32
  lazy_bind_size ← u32_at mem p 36
  export_off ← u32_at mem p 40
  export_size ← u32_at mem p 44
  some (record {
    cmd = cmd;
    cmdsize = cmdsize;
    rebase_off = rebase_off;
    rebase_size = rebase_size;
    bind_off = bind_off;
    bind_size = bind_size;
    weak_bind_off = weak_bind_off;
    weak_bind_size = weak_bind_size;
    lazy_bind_off = lazy_bind_off;
    lazy_bind_size = lazy_bind_size;
    export_off = export_off;
    export_size = export_size;
  })

-- `name.offset` counts from the command.
pub record DylibCommand : Type 0 where
  pub cmd : ℕ
  pub cmdsize : ℕ
  pub name_offset : ℕ
  pub timestamp : ℕ
  pub current_version : ℕ
  pub compatibility_version : ℕ

unfoldable pub read_dylib_command : Mem → ℕ → Option DylibCommand
unfolding read_le read_bytes
read_dylib_command mem p = do
  cmd ← u32_at mem p 0
  cmdsize ← u32_at mem p 4
  name_offset ← u32_at mem p 8
  timestamp ← u32_at mem p 12
  current_version ← u32_at mem p 16
  compatibility_version ← u32_at mem p 20
  some (record {
    cmd = cmd;
    cmdsize = cmdsize;
    name_offset = name_offset;
    timestamp = timestamp;
    current_version = current_version;
    compatibility_version = compatibility_version;
  })

pub record LinkeditDataCommand : Type 0 where
  pub cmd : ℕ
  pub cmdsize : ℕ
  pub dataoff : ℕ
  pub datasize : ℕ

unfoldable pub read_linkedit_data_command : Mem → ℕ → Option LinkeditDataCommand
unfolding read_le read_bytes
read_linkedit_data_command mem p = do
  cmd ← u32_at mem p 0
  cmdsize ← u32_at mem p 4
  dataoff ← u32_at mem p 8
  datasize ← u32_at mem p 12
  some (record { cmd = cmd; cmdsize = cmdsize; dataoff = dataoff; datasize = datasize })

pub record Nlist : Type 0 where
  pub n_strx : ℕ
  pub n_type : ℕ
  pub n_sect : ℕ
  pub n_desc : ℕ
  pub n_value : ℕ

unfoldable pub read_nlist : Mem → ℕ → Option Nlist
unfolding read_le read_bytes
read_nlist mem p = do
  n_strx ← u32_at mem p 0
  n_type ← byte_at mem p 4
  n_sect ← byte_at mem p 5
  n_desc ← u16_at mem p 6
  n_value ← u32_at mem p 8
  some (record {
    n_strx = n_strx;
    n_type = n_type;
    n_sect = n_sect;
    n_desc = n_desc;
    n_value = n_value;
  })

pub record Nlist64 : Type 0 where
  pub n_strx : ℕ
  pub n_type : ℕ
  pub n_sect : ℕ
  pub n_desc : ℕ
  pub n_value : ℕ

unfoldable pub read_nlist_64 : Mem → ℕ → Option Nlist64
unfolding read_le read_bytes
read_nlist_64 mem p = do
  n_strx ← u32_at mem p 0
  n_type ← byte_at mem p 4
  n_sect ← byte_at mem p 5
  n_desc ← u16_at mem p 6
  n_value ← u64_at mem p 8
  some (record {
    n_strx = n_strx;
    n_type = n_type;
    n_sect = n_sect;
    n_desc = n_desc;
    n_value = n_value;
  })

-- sizeof(struct nlist)
abbrev pub sizeof_nlist : ℕ
sizeof_nlist = 12

-- sizeof(struct nlist_64)
abbrev pub sizeof_nlist_64 : ℕ
sizeof_nlist_64 = 16
