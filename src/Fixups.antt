-- ===== src/Fixups.antt =====
-- Chained fixups (main.c): the fields of a chained pointer, the imports table, the walk along a chain
-- and over the pages, and dump_chained_fixups.

pub mod Evolution
pub mod Fields
pub mod Imported
pub mod Chain
pub mod Metadata
pub mod Confined
pub mod Walk
pub mod Prefix
pub mod Links
pub mod Pages
pub mod Starts
pub mod Payload
pub mod Settled
use maloader.Common.{
  ℕ, zero, suc, ◌+◌, ◌-◌, ◌*◌, ◌/◌, ◌^◌, bit_and, ◌==◌, ltb, leb, if◌then◌else◌, Bool, false, not,
  none, some, List, get_elem?, String,
}
use maloader.Machine.{
  when◌then◌else◌, SegmentInfo, Cmd, pure, unit, ◌>>=◌, ◌>>◌, reads, get_context, set_context,
  load64, store64, read_le, u32, u64,
}
use maloader.Formats.Fixups.{
  ChainedFixupsHeader, read_chained_fixups_header, ChainedStartsInSegment,
  read_chained_starts_in_segment, sizeof_chained_fixups_header, sizeof_chained_starts_in_segment,
  offsetof_page_start, start_none, start_multi, ptr_64_offset,
}
use maloader.Host.{Host}
use maloader.Imports.{apply_chained_bind}

unfoldable pub chained_import_format_name : ℕ → String
chained_import_format_name fmt =
    if fmt == 1
    then "DYLD_CHAINED_IMPORT"
    else if fmt == 2
    then "DYLD_CHAINED_IMPORT_ADDEND"
    else if fmt == 3
    then "DYLD_CHAINED_IMPORT_ADDEND64"
    else "unknown"

unfoldable pub chained_symbol_format_name : ℕ → String
chained_symbol_format_name fmt =
    if fmt == 0 then "uncompressed" else if fmt == 1 then "zlib compressed" else "unknown"

unfoldable pub chained_pointer_format_name : ℕ → String
chained_pointer_format_name fmt =
    if fmt == 1
    then "DYLD_CHAINED_PTR_ARM64E"
    else if fmt == 2
    then "DYLD_CHAINED_PTR_64"
    else if fmt == 6
    then "DYLD_CHAINED_PTR_64_OFFSET"
    else if fmt == 8
    then "DYLD_CHAINED_PTR_64_KERNEL_CACHE"
    else if fmt == 3
    then "DYLD_CHAINED_PTR_32"
    else if fmt == 4
    then "DYLD_CHAINED_PTR_32_CACHE"
    else if fmt == 5
    then "DYLD_CHAINED_PTR_32_FIRMWARE"
    else if fmt == 9
    then "DYLD_CHAINED_PTR_ARM64E_USERLAND"
    else if fmt == 12
    then "DYLD_CHAINED_PTR_ARM64E_USERLAND24"
    else "unknown"

unfoldable pub chained64_bind_ordinal : ℕ → ℕ
chained64_bind_ordinal raw = bit_and raw 0xFFFFFF

-- The int8_t as a pattern of 8 bits.
unfoldable pub chained64_bind_addend : ℕ → ℕ
chained64_bind_addend raw = bit_and (raw / 2 ^ 24) 0xFF

unfoldable pub chained64_rebase_target : ℕ → ℕ
chained64_rebase_target raw = bit_and raw 0xFFFFFFFFF

unfoldable pub chained64_next : ℕ → ℕ
chained64_next raw = bit_and (raw / 2 ^ 51) 0xFFF

unfoldable pub chained64_is_bind : ℕ → Bool
chained64_is_bind raw = not (bit_and (raw / 2 ^ 63) 1 == 0)

-- The conversion of an int8_t to int64_t, on patterns.
unfoldable pub sign_extend8 : ℕ → ℕ
sign_extend8 b = if ltb b 128 then b else 2 ^ 64 - 256 + b

-- The address of an import's name, or NULL. `name_offset` is the upper 23 bits of an import.
unfoldable pub chained_import_name : (fixups_base : ℕ) → ChainedFixupsHeader → (ordinal : ℕ) → Cmd ℕ
unfolding read_le
chained_import_name fixups_base hdr ordinal =
    when leb hdr.imports_count ordinal then pure 0 else (do
      bits ← reads λ mem. read_le 4 mem (u64 (fixups_base + hdr.imports_offset + 4 * ordinal))
      pure (u64 (fixups_base + hdr.symbols_offset + bits / 2 ^ 9)))

unfoldable pub apply_chained_64_offset_rebase : (loc raw : ℕ) → Cmd (Unit {0})
unfolding chained64_rebase_target store64
apply_chained_64_offset_rebase loc raw = do
  c ← get_context
  store64 loc (u64 (c.img_addr + chained64_rebase_target raw))

abbrev pub max_chain : ℕ
max_chain = 512

-- The guards of dump_chained_64_offset_entries on the table of loaded segments.
unfoldable pub is_loaded : List SegmentInfo → ℕ → Bool
is_loaded segments i = elim (get_elem? segments i) [
  | none ↦ false
  | some s ↦ not (s.mapped_addr == 0)
]

module _ (h : Host) (fixups_base : ℕ) (hdr : ChainedFixupsHeader) where
  -- One entry of a chain: `raw` is what its location holds.
  unfoldable pub apply_entry : (loc raw : ℕ) → Cmd (Unit {0})
  unfolding chained64_is_bind chained64_bind_ordinal chained64_bind_addend sign_extend8
      chained_import_name apply_chained_64_offset_rebase
  apply_entry loc raw =
      when chained64_is_bind raw
      then (do
        name ← chained_import_name fixups_base hdr (chained64_bind_ordinal raw)
        when not (name == 0)
            then (do
              _ ← apply_chained_bind h loc name (sign_extend8 (chained64_bind_addend raw))
              unit)
            else set_context λ c. record c {
              chained_bind_count = u32 (c.chained_bind_count + 1);
              chained_unresolved_bind_count = u32 (c.chained_unresolved_bind_count + 1);
            })
      else (do
        apply_chained_64_offset_rebase loc raw
        set_context λ c. record c { chained_rebase_count = u32 (c.chained_rebase_count + 1) })

  -- The walk along one chain, with the rounds that are left of the 512.
  unfoldable pub walk_chain : (rounds loc : ℕ) → Cmd (Unit {0})
  unfolding apply_entry chained64_next load64
  walk_chain zero loc = unit
  walk_chain (suc rounds) loc = do
    raw ← load64 loc
    _ ← apply_entry loc raw
    when chained64_next raw == 0
        then unit
        else walk_chain rounds (u64 (loc + chained64_next raw * 4))

  -- One page of a segment whose description lies at `at`.
  unfoldable pub walk_page : (at : ℕ) → ChainedStartsInSegment → (page : ℕ) → Cmd (Unit {0})
  unfolding read_le
  walk_page at seg page = do
    page_start ← reads λ mem. read_le 2 mem (at + offsetof_page_start + 2 * page)
    when page_start == start_none
        then unit
        else when not (bit_and page_start start_multi == 0)
        then unit
        else (do
          c ← get_context
          let chain_offset = u64 (seg.segment_offset + page * seg.page_size + page_start)
          walk_chain max_chain (u64 (c.img_addr + chain_offset)))

  -- `seg` is read once, where the source reads its fields again in each round.
  unfoldable pub walk_pages : (at : ℕ) → ChainedStartsInSegment → (rounds page : ℕ) → Cmd (Unit {0})
  unfolding walk_page
  walk_pages at seg zero page = unit
  walk_pages at seg (suc rounds) page = do
    _ ← walk_page at seg page
    walk_pages at seg rounds (page + 1)

  unfoldable pub dump_chained_64_offset_entries :
      (segment_index at : ℕ) → ChainedStartsInSegment → Cmd (Unit {0})
  unfolding walk_pages is_loaded
  dump_chained_64_offset_entries segment_index at seg = do
    c ← get_context
    when is_loaded c.segments segment_index then walk_pages at seg seg.page_count 0 else unit

  -- One segment of the starts table at `starts`.
  unfoldable pub dump_segment : (starts fixups_end i : ℕ) → Cmd (Unit {0})
  unfolding read_le
  dump_segment starts fixups_end i = do
    seg_info_off ← reads λ mem. read_le 4 mem (starts + 4 + 4 * i)
    let at = starts + seg_info_off
    when seg_info_off == 0
        then unit
        else when ltb fixups_end (at + sizeof_chained_starts_in_segment)
        then unit
        else (do
          seg ← reads λ mem. read_chained_starts_in_segment mem at
          when seg.pointer_format == ptr_64_offset
              then dump_chained_64_offset_entries i at seg
              else unit)

  -- The number of rounds and the header are read once, where the source reads them again in each.
  unfoldable pub dump_segments : (starts fixups_end rounds i : ℕ) → Cmd (Unit {0})
  unfolding dump_segment
  dump_segments starts fixups_end zero i = unit
  dump_segments starts fixups_end (suc rounds) i = do
    _ ← dump_segment starts fixups_end i
    dump_segments starts fixups_end rounds (i + 1)

abbrev pub reset_counts : Cmd (Unit {0})
reset_counts = set_context λ c. record c { chained_rebase_count = 0; chained_bind_count = 0 }

unfoldable pub dump_chained_fixups : Host → (dataoff datasize : ℕ) → Cmd (Unit {0})
unfolding dump_segments read_le
dump_chained_fixups h dataoff datasize = do
  c ← get_context
  let fixups_base = u64 (c.memblock + dataoff)
  reset_counts
  when ltb datasize sizeof_chained_fixups_header then unit else (do
    hdr ← reads λ mem. read_chained_fixups_header mem fixups_base
    let starts = fixups_base + hdr.starts_offset
    when leb datasize hdr.starts_offset
        then unit
        else when ltb (fixups_base + datasize) (starts + 4)
        then unit
        else (do
          seg_count ← reads λ mem. read_le 4 mem starts
          dump_segments h fixups_base hdr starts (fixups_base + datasize) seg_count 0))
