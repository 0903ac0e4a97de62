-- ===== src/Formats/Fixups.antt =====
-- The payload of LC_DYLD_CHAINED_FIXUPS (mach-o/fixup-chains.h, mach-o/fixup-compat.h).
use maloader.Common.{ℕ, Option, some}
use maloader.Machine.{Mem, read_le, read_bytes}
use maloader.Formats.Optional.{◌>>=◌, u16_at, u32_at, u64_at}

pub record ChainedFixupsHeader : Type 0 where
  pub fixups_version : ℕ
  pub starts_offset : ℕ
  pub imports_offset : ℕ
  pub symbols_offset : ℕ
  pub imports_count : ℕ
  pub imports_format : ℕ
  pub symbols_format : ℕ

unfoldable pub read_chained_fixups_header : Mem → ℕ → Option ChainedFixupsHeader
unfolding read_le read_bytes
read_chained_fixups_header mem p = do
  fixups_version ← u32_at mem p 0
  starts_offset ← u32_at mem p 4
  imports_offset ← u32_at mem p 8
  symbols_offset ← u32_at mem p 12
  imports_count ← u32_at mem p 16
  imports_format ← u32_at mem p 20
  symbols_format ← u32_at mem p 24
  some (record {
    fixups_version = fixups_version;
    starts_offset = starts_offset;
    imports_offset = imports_offset;
    symbols_offset = symbols_offset;
    imports_count = imports_count;
    imports_format = imports_format;
    symbols_format = symbols_format;
  })

-- The fixed part; the array `page_start` follows at offset 22.
pub record ChainedStartsInSegment : Type 0 where
  pub size : ℕ
  pub page_size : ℕ
  pub pointer_format : ℕ
  pub segment_offset : ℕ
  pub max_valid_pointer : ℕ
  pub page_count : ℕ

unfoldable pub read_chained_starts_in_segment : Mem → ℕ → Option ChainedStartsInSegment
unfolding read_le read_bytes
read_chained_starts_in_segment mem p = do
  size ← u32_at mem p 0
  page_size ← u16_at mem p 4
  pointer_format ← u16_at mem p 6
  segment_offset ← u64_at mem p 8
  max_valid_pointer ← u32_at mem p 16
  page_count ← u16_at mem p 20
  some (record {
    size = size;
    page_size = page_size;
    pointer_format = pointer_format;
    segment_offset = segment_offset;
    max_valid_pointer = max_valid_pointer;
    page_count = page_count;
  })

abbrev pub sizeof_chained_fixups_header : ℕ
sizeof_chained_fixups_header = 28

-- With one `page_start`, as `sizeof(*seg)` counts it.
abbrev pub sizeof_chained_starts_in_segment : ℕ
sizeof_chained_starts_in_segment = 24

abbrev pub offsetof_page_start : ℕ
offsetof_page_start = 22

-- MAL_DYLD_CHAINED_PTR_START_NONE and _MULTI.
abbrev pub start_none : ℕ
start_none = 0xFFFF

abbrev pub start_multi : ℕ
start_multi = 0x8000

-- MAL_DYLD_CHAINED_PTR_64_OFFSET, the one pointer format that is applied.
abbrev pub ptr_64_offset : ℕ
ptr_64_offset = 6
