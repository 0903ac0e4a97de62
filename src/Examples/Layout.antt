-- ===== src/Examples/Layout.antt =====
-- The layout theorems at two segments.
use maloader.Formats.Header.{sizeof_mach_header_64}
use maloader.Segments.Image.{whole, ensure_image_mapping_64-room, ensure_image_mapping_64-answered}
use maloader.Segments.Placement.{imaged}
use maloader.Common.{
  ℕ, ◌+◌, ◌*◌, ◌^◌, ◌≤◌, ◌≡◌, refl, List, [], ◌∷◌, ◌++◌, arith, true, codes, ◌⊎◌, ◌≢◌, ◌-◌, some,
  none,
}
use maloader.Machine.{Machine, ok, u64, sub64, success, failure, read_le}
use maloader.Formats.Commands.{SegmentCommand64, read_segment_command_64}
use maloader.Segments.{
  Extent, no_extent, image_call, align_memory, is_mappable, has_name, scan_commands,
  ensure_image_mapping_64,
}
use maloader.Segments.Alignment.{IsLeastMultiple, align_memory-IsLeastMultiple}
use maloader.Segments.Extents.{
  HasSegments, done, segment, other, extent_over, Covers, scan_commands-HasSegments,
  extent_over-Covers,
}
use maloader.Examples.{machine_of, host, host-MapsFresh}
use maloader.Examples.Files.{words, zeros}

align_memory-IsLeastMultiple_example :
    (q : ℕ) × (align_memory 0x1001 (2 ^ 12) ≡ q * 2 ^ 12) × IsLeastMultiple 0x1001 (2 ^ 12) q
align_memory-IsLeastMultiple_example =
    align_memory-IsLeastMultiple 0x1001 12 (omega arith) (omega arith)

-- A segment of 0x2000 bytes, and what its command holds.
abbrev segname : List ℕ
segname = codes "__DATA" ++ zeros 10

abbrev data_segment : SegmentCommand64
data_segment = record {
  cmd = 0x19;
  cmdsize = 72;
  segname = segname;
  vmaddr = 0x4000;
  vmsize = 0x2000;
  fileoff = 0;
  filesize = 0;
  maxprot = 3;
  initprot = 3;
  nsects = 0;
  flags = 0;
}

abbrev data_command : List ℕ
data_command =
    words (0x19 ∷ 72 ∷ [])
    ++ segname
    ++ words (0x4000 ∷ 0 ∷ 0x2000 ∷ 0 ∷ 0 ∷ 0 ∷ 0 ∷ 0 ∷ 3 ∷ 3 ∷ 0 ∷ 0 ∷ [])

-- The segment command, and an empty symbol table behind it.
abbrev two_commands : Machine
two_commands = machine_of 0x1000 (data_command ++ words (2 ∷ 24 ∷ []))

found : HasSegments two_commands 2 0x1000 (data_segment ∷ [])
unfolding machine_of words read_segment_command_64
found = segment data_segment 72 refl refl refl (other 2 24 refl (λ e. cc) refl done)

scan_commands-HasSegments_example :
    scan_commands 2 0x1000 no_extent two_commands
    ≡ ok (extent_over (data_segment ∷ []) no_extent) two_commands
scan_commands-HasSegments_example =
    scan_commands-HasSegments 2 0x1000 (data_segment ∷ []) no_extent two_commands found

data-mapped : is_mappable data_segment ≡ true
unfolding is_mappable has_name
data-mapped = refl

extent_over-Covers_example : Covers (extent_over (data_segment ∷ []) no_extent) data_segment
extent_over-Covers_example =
    extent_over-Covers (data_segment ∷ []) 0 data_segment no_extent refl data-mapped (omega arith)

abbrev extent : Extent
extent = record { min_vmaddr = 0x1000; max_vmaddr = 0x6000 }

-- A file of a header and the two commands.
abbrev whole_file : Machine
whole_file = machine_of 0x1000 (
    words (0xFEEDFACF ∷ 0x01000007 ∷ 3 ∷ 2 ∷ 2 ∷ 96 ∷ 0 ∷ 0 ∷ [])
    ++ data_command
    ++ words (2 ∷ 24 ∷ []))

file_count : read_le 4 whole_file.mem (whole_file.context.memblock + 16) ≡ some 2
unfolding machine_of words read_le
file_count = refl

no_image : whole_file.context.img_addr ≡ 0
unfolding machine_of
no_image = refl

file_segments :
    HasSegments whole_file 2
      (whole_file.context.memblock + sizeof_mach_header_64)
      (data_segment ∷ [])
unfolding machine_of words read_segment_command_64
file_segments = segment data_segment 72 refl refl refl (other 2 24 refl (λ e. cc) refl done)

file_range :
    (whole (data_segment ∷ [])).max_vmaddr - (whole (data_segment ∷ [])).min_vmaddr ≡ 0x2000
unfolding extent_over has_name
file_range = refl

ensure_image_mapping_64-room_example :
    let e = whole (data_segment ∷ []) in
    (ensure_image_mapping_64 host whole_file ≡ ok failure whole_file)
    ⊎ ((base : ℕ) × (ensure_image_mapping_64 host whole_file
          ≡ ok success (imaged whole_file e base))
        × (base ≢ 0)
        × (base ≤ u64 (base + sub64 data_segment.vmaddr e.min_vmaddr))
        × (u64 (base + sub64 data_segment.vmaddr e.min_vmaddr) + data_segment.vmsize
            ≤ base + (image_call e).length))
ensure_image_mapping_64-room_example =
    ensure_image_mapping_64-room host whole_file 2 0 (data_segment ∷ []) data_segment host-MapsFresh
      no_image file_count file_segments (omega (arith, file_range)) refl data-mapped (omega arith)

ensure_image_mapping_64-answered_example :
    let e = whole (data_segment ∷ []) in
    ((host.mmap whole_file.mem (image_call e) ≡ none)
      × (ensure_image_mapping_64 host whole_file ≡ ok failure whole_file))
    ⊎ ((base : ℕ) × (host.mmap whole_file.mem (image_call e) ≡ some base)
        × (ensure_image_mapping_64 host whole_file ≡ ok success (imaged whole_file e base))
        × (e.min_vmaddr ≤ data_segment.vmaddr)
        × (data_segment.vmaddr + data_segment.vmsize ≤ e.max_vmaddr))
ensure_image_mapping_64-answered_example =
    ensure_image_mapping_64-answered host whole_file 2 0 (data_segment ∷ []) data_segment no_image
      file_count file_segments refl data-mapped (omega arith)
