-- ===== src/Segments.antt =====
-- Segments (main.c): alignMemory, ensure_image_mapping_64, load_segment, load_segment_64,
-- load_section and load_section_64.
pub mod Evolution
pub mod Alignment
pub mod Placement
pub mod Image
pub mod Extents
pub mod Contents
pub mod Copies
use maloader.Common.{
  ℕ, zero, suc, ◌+◌, ◌-◌, ◌^◌, bit_and, ◌==◌, ltb, leb, if◌then◌else◌, Bool, ◌&&◌, ◌||◌, not,
  Option, none, some, List, [], ◌∷◌, ◌++◌, length, codes,
}
use maloader.Machine.{
  when◌then◌else◌, undefined, exit_failure, MachContext, SegmentInfo, Cmd, pure, unit, ◌>>=◌, ◌>>◌,
  reads, get_context, set_context, get_mem, add_mapping, Status, success, failure, memcpy, read_le,
  text_eq, until_nul, u32, u64, sub64, mach_loader_max_segments,
}
use maloader.Formats.Header.{sizeof_mach_header_64}
use maloader.Formats.Commands.{
  SegmentCommand, SegmentCommand64, read_segment_command, read_segment_command_64, read_section,
  read_section_64, lc_segment_64,
}
use maloader.Host.{Host, MmapCall}

-- `(pointer + (alignment - 1)) & ~(alignment - 1)` on uint64_t.
unfoldable pub align_memory : (pointer alignment : ℕ) → ℕ
align_memory pointer alignment =
    let mask = sub64 alignment 1 in bit_and (u64 (pointer + mask)) (2 ^ 64 - 1 - mask)

-- `!strcmp(segname, text)`; the array has 16 bytes, and a text that fills it has no NUL.
unfoldable pub has_name : List ℕ → List ℕ → Bool
unfolding text_eq until_nul
has_name segname text = text_eq (until_nul segname) text

abbrev pub seg_pagezero : List ℕ
seg_pagezero = codes "__PAGEZERO"

abbrev pub seg_text : List ℕ
seg_text = codes "__TEXT"

-- The range of addresses that the scan has met, `[min_vmaddr, max_vmaddr)`.
pub record Extent : Type 0 where
  pub min_vmaddr : ℕ
  pub max_vmaddr : ℕ

abbrev pub no_extent : Extent
no_extent = record { min_vmaddr = 2 ^ 64 - 1; max_vmaddr = 0 }

unfoldable pub is_mappable : SegmentCommand64 → Bool
is_mappable seg = not (has_name seg.segname seg_pagezero) && not (seg.vmsize == 0)

unfoldable pub widen : SegmentCommand64 → Extent → Extent
unfolding is_mappable
widen seg e =
    let top = u64 (seg.vmaddr + seg.vmsize) in
    if is_mappable seg
    then record {
      min_vmaddr = if ltb seg.vmaddr e.min_vmaddr then seg.vmaddr else e.min_vmaddr;
      max_vmaddr = if ltb e.max_vmaddr top then top else e.max_vmaddr;
    }
    else e

-- One round of the scan: the command at `p` widens the range if it is an LC_SEGMENT_64.
unfoldable pub scan_command : ℕ → Extent → Cmd Extent
unfolding widen read_le
scan_command p e = do
  cmd ← reads λ mem. read_le 4 mem p
  when cmd == lc_segment_64
      then (do seg ← reads λ mem. read_segment_command_64 mem p; pure (widen seg e))
      else pure e

unfoldable pub scan_commands : (rounds p : ℕ) → Extent → Cmd Extent
unfolding scan_command read_le
scan_commands zero p e = pure e
scan_commands (suc rounds) p e = do
  e' ← scan_command p e
  cmdsize ← reads λ mem. read_le 4 mem (p + 4)
  scan_commands rounds (u64 (p + cmdsize)) e'

-- PROT_READ | PROT_WRITE | PROT_EXEC, MAP_ANON | MAP_PRIVATE and MAP_ANON | MAP_SHARED on Linux.
abbrev pub prot_rwx : ℕ
prot_rwx = 7

abbrev pub map_anon_private : ℕ
map_anon_private = 0x22

abbrev pub map_anon_shared : ℕ
map_anon_shared = 0x21

unfoldable pub image_call : Extent → MmapCall
unfolding align_memory
image_call e = record {
  addr = e.min_vmaddr;
  length = align_memory (sub64 e.max_vmaddr e.min_vmaddr) 0x1000;
  prot = prot_rwx;
  flags = map_anon_private;
}

-- What follows the call of mmap, for each result of it.
unfoldable pub use_mapping : Extent → Option ℕ → Cmd Status
unfolding image_call
use_mapping e none = pure failure
use_mapping e (some mapped) = do
  add_mapping mapped (image_call e).length
  set_context λ c. record c { img_addr = mapped; v_addr = e.min_vmaddr }
  pure success

module _ (h : Host) where
  -- The part of ensure_image_mapping_64 behind the scan.
  unfoldable pub map_extent : Extent → Cmd Status
  unfolding use_mapping
  map_extent e =
      when e.min_vmaddr == 2 ^ 64 - 1 || leb e.max_vmaddr e.min_vmaddr
      then pure failure
      else (do mem ← get_mem; use_mapping e (h.mmap mem (image_call e)))

  unfoldable pub ensure_image_mapping_64 : Cmd Status
  unfolding map_extent scan_commands read_le
  ensure_image_mapping_64 = do
    c ← get_context
    when not (c.img_addr == 0) then pure success else (do
      ncmds ← reads λ mem. read_le 4 mem (c.memblock + 16)
      e ← scan_commands ncmds (c.memblock + sizeof_mach_header_64) no_extent
      map_extent e)

-- Where a segment lies in memory, as it is recorded; 0 for a segment that does not.
unfoldable pub mapped_addr_of : MachContext → (segname : List ℕ) (vmaddr : ℕ) → ℕ
unfolding has_name
mapped_addr_of c segname vmaddr =
    if has_name segname seg_pagezero
    then 0
    else if has_name segname seg_text
    then c.img_addr
    else if not (c.img_addr == 0) && not (c.v_addr == 0)
    then u64 (c.img_addr + sub64 vmaddr c.v_addr)
    else 0

-- The entry for a segment, unless the table is full. `n_segment_info` is the table's length.
unfoldable pub record_segment : (segname : List ℕ) (vmaddr vmsize : ℕ) → MachContext → MachContext
unfolding mapped_addr_of
record_segment segname vmaddr vmsize c =
    let entry : SegmentInfo = record {
      segname = segname;
      vmaddr = vmaddr;
      vmsize = vmsize;
      mapped_addr = mapped_addr_of c segname vmaddr;
    } in
    if ltb (length c.segments) mach_loader_max_segments
    then record c { segments = c.segments ++ (entry ∷ []) }
    else c

-- The copy of a segment's bytes from the file to the image.
unfoldable pub copy_segment_64 : SegmentCommand64 → Cmd (Unit {0})
unfolding has_name memcpy
copy_segment_64 lc_segment = do
  c ← get_context
  when not (has_name lc_segment.segname seg_pagezero)
        && not (lc_segment.filesize == 0)
        && not (c.img_addr == 0)
        && not (c.v_addr == 0)
      then memcpy (u64 (c.img_addr + sub64 lc_segment.vmaddr c.v_addr))
          (u64 (c.memblock + lc_segment.fileoff)) lc_segment.filesize
      else unit

-- The return value is `nsects`.
unfoldable pub load_segment_64 : Host → Cmd ℕ
unfolding ensure_image_mapping_64 copy_segment_64 record_segment
load_segment_64 h = do
  c ← get_context
  lc_segment ← reads λ mem. read_segment_command_64 mem c.ptr
  _ ← ensure_image_mapping_64 h
  copy_segment_64 lc_segment
  set_context (record_segment lc_segment.segname lc_segment.vmaddr lc_segment.vmsize)
  pure lc_segment.nsects

abbrev pub map_failed : ℕ
map_failed = 2 ^ 64 - 1

-- The pointer that mmap returns, and the mapping that it made.
unfoldable pub enter_mapping : (len : ℕ) → Option ℕ → Cmd ℕ
enter_mapping len none = pure map_failed
enter_mapping len (some base) = do add_mapping base len; pure base

-- The 32-bit loader maps __TEXT alone, and copies 0x3000 bytes also where mmap failed.
unfoldable pub map_text : Host → SegmentCommand → Cmd (Unit {0})
unfolding align_memory memcpy enter_mapping
map_text h lc_segment = do
  let filesize = align_memory (u32 (lc_segment.filesize + 0x3000)) 0x1000
  let call : MmapCall = record {
    addr = lc_segment.vmaddr;
    length = filesize;
    prot = prot_rwx;
    flags = map_anon_shared;
  }
  mem ← get_mem
  vm_segment ← enter_mapping filesize (h.mmap mem call)
  c ← get_context
  memcpy vm_segment c.memblock 0x3000
  set_context λ c. record c { img_addr = vm_segment; v_addr = lc_segment.vmaddr }

unfoldable pub load_segment : Host → Cmd ℕ
unfolding map_text record_segment has_name
load_segment h = do
  c ← get_context
  lc_segment ← reads λ mem. read_segment_command mem c.ptr
  (when has_name lc_segment.segname seg_text then map_text h lc_segment else unit)
  set_context (record_segment lc_segment.segname lc_segment.vmaddr lc_segment.vmsize)
  pure lc_segment.nsects

-- The sections are read, and only printed.
unfoldable pub load_section_64 : Cmd (Unit {0})
load_section_64 = do c ← get_context; _ ← reads λ mem. read_section_64 mem c.ptr; unit

unfoldable pub load_section : Cmd (Unit {0})
load_section = do c ← get_context; _ ← reads λ mem. read_section mem c.ptr; unit
