-- ===== src/Examples/Images.antt =====
-- A file of two segments, __PAGEZERO and one of four bytes, that is loaded from scratch.
use maloader.Common.{◌≡◌, refl, some, inl, inr, List, [], ◌∷◌, ◌++◌, ℕ, codes, true, arith}
use maloader.Machine.{
  Machine, Mem, read_bytes, Run, Status, ok, fault, exited, out_of_fuel, success, failure, ◌>>=◌,
  memcpy, store_bytes, put_bytes, map_zero,
}
use maloader.Machine.Runs.{Ensures}
use maloader.Machine.Evolves.{WellFormed}
use maloader.Machine.Windows.{window}
use maloader.Formats.Header.{MachHeader64, read_mach_header_64}
use maloader.Formats.Commands.{SegmentCommand64, read_segment_command_64}
use maloader.Segments.{
  Extent, has_name, is_mappable, image_call, align_memory, map_extent, scan_commands, use_mapping,
  widen,
}
use maloader.Segments.Extents.{extent_over}
use maloader.Segments.Copies.{copies}
use maloader.Loader.{loader_64}
use maloader.Loader.Layout.{IsCommands, segment, commands_end}
use maloader.Loader.Ranges.{AreLaidOut}
use maloader.Loader.Loaded.{loader_64-contents}
use maloader.Examples.{host, base, host-MapsFresh, machine_of, machine_of-WellFormed, is_free}
use maloader.Examples.Files.{words, zeros}

abbrev page_zero : SegmentCommand64
page_zero = record {
  cmd = 0x19;
  cmdsize = 72;
  segname = codes "__PAGEZERO" ++ zeros 6;
  vmaddr = 0;
  vmsize = 0x4000;
  fileoff = 0;
  filesize = 0;
  maxprot = 0;
  initprot = 0;
  nsects = 0;
  flags = 0;
}

abbrev data_segment : SegmentCommand64
data_segment = record {
  cmd = 0x19;
  cmdsize = 72;
  segname = codes "__DATA" ++ zeros 10;
  vmaddr = 0x4000;
  vmsize = 0x10;
  fileoff = 0xB0;
  filesize = 4;
  maxprot = 3;
  initprot = 3;
  nsects = 0;
  flags = 0;
}

abbrev segs : List SegmentCommand64
segs = page_zero ∷ data_segment ∷ []

unfoldable file_bytes : List ℕ
unfolding words
file_bytes =
    words (0xFEEDFACF ∷ 0x01000007 ∷ 3 ∷ 2 ∷ 2 ∷ 144 ∷ 0 ∷ 0 ∷ [])
    ++ words (0x19 ∷ 72 ∷ [])
    ++ page_zero.segname
    ++ words (0 ∷ 0 ∷ 0x4000 ∷ 0 ∷ 0 ∷ 0 ∷ 0 ∷ 0 ∷ 0 ∷ 0 ∷ 0 ∷ 0 ∷ [])
    ++ words (0x19 ∷ 72 ∷ [])
    ++ data_segment.segname
    ++ words (0x4000 ∷ 0 ∷ 0x10 ∷ 0 ∷ 0xB0 ∷ 0 ∷ 4 ∷ 0 ∷ 3 ∷ 3 ∷ 0 ∷ 0 ∷ [])
    ++ (1 ∷ 2 ∷ 3 ∷ 4 ∷ [])

abbrev on_disk : Machine
on_disk = machine_of 0x1000 file_bytes

abbrev file : Mem
file = window on_disk.mem 0x1000 180

abbrev header : MachHeader64
header = record {
  magic = 0xFEEDFACF;
  cputype = 0x01000007;
  cpusubtype = 3;
  filetype = 2;
  ncmds = 2;
  sizeofcmds = 144;
  flags = 0;
  reserved = 0;
}

header-read : read_mach_header_64 file 0x1000 ≡ some header
unfolding machine_of file_bytes read_mach_header_64 window
header-read = refl

commands : IsCommands file 2 0x1020 segs
unfolding machine_of file_bytes read_segment_command_64 window
commands =
    segment page_zero refl refl (omega arith) (omega arith)
      (segment data_segment refl refl (omega arith) (omega arith) commands_end)

segs-AreLaidOut : AreLaidOut segs
unfolding is_mappable has_name
segs-AreLaidOut = (inl refl, (inl refl, tt), (inr (refl, omega arith, omega arith), tt, tt))

abbrev range_call : Extent
range_call = record { min_vmaddr = 0x4000; max_vmaddr = 0x4010 }

image_mapped : host.mmap on_disk.mem (image_call range_call) ≡ some base
unfolding host machine_of file_bytes image_call align_memory is_free
image_mapped = refl

bytes-read : read_bytes file 0x10B0 4 ≡ some (1 ∷ 2 ∷ 3 ∷ 4 ∷ [])
unfolding machine_of file_bytes read_bytes window
bytes-read = refl

data-copies : copies data_segment ≡ true
unfolding has_name
data-copies = refl

on_disk-WellFormed : WellFormed on_disk
unfolding file_bytes
on_disk-WellFormed = machine_of-WellFormed 0x1000 file_bytes (omega arith)

loader_64-contents_example :
    Ensures
      (λ _ m'. read_bytes m'.mem 0x100000 4 ≡ some (1 ∷ 2 ∷ 3 ∷ 4 ∷ []))
      (loader_64 host on_disk)
unfolding machine_of extent_over has_name
loader_64-contents_example =
    loader_64-contents host 0x1000 180 base 1 header segs data_segment (1 ∷ 2 ∷ 3 ∷ 4 ∷ []) on_disk
      host-MapsFresh on_disk-WellFormed refl (omega arith) header-read refl commands segs-AreLaidOut
      (omega arith) (omega arith) (omega arith) image_mapped refl data-copies bytes-read

abbrev status_of : Run Status → Status
status_of (ok s m) = s
status_of fault = failure
status_of exited = failure
status_of out_of_fuel = failure

-- The run returns.
file-loads : status_of (loader_64 host on_disk) ≡ success
unfolding loader_64 host machine_of file_bytes ◌>>=◌ read_mach_header_64 read_segment_command_64
    widen map_extent has_name is_mappable image_call align_memory is_free memcpy store_bytes
    put_bytes read_bytes map_zero scan_commands use_mapping window
file-loads = refl
