-- ===== src/Examples/Contents.antt =====
-- The load of a segment of four bytes.
use maloader.Common.{◌≡◌, refl, some, inl, inr, List, [], ◌∷◌, ◌++◌, ℕ, codes, false, arith}
use maloader.Machine.{Machine, ok, read_bytes, SegmentInfo}
use maloader.Machine.Memory.{IsMapped-of_read}
use maloader.Formats.Commands.{SegmentCommand64, read_segment_command_64}
use maloader.Segments.{load_segment_64, has_name, seg_pagezero}
use maloader.Segments.Contents.{load_segment_64-contents}
use maloader.Examples.{host, machine_of}
use maloader.Examples.Files.{words, zeros}

abbrev segname : List ℕ
segname = codes "__DATA" ++ zeros 10

abbrev four_bytes : SegmentCommand64
four_bytes = record {
  cmd = 0x19;
  cmdsize = 72;
  segname = segname;
  vmaddr = 0x4000;
  vmsize = 0x10;
  fileoff = 0x48;
  filesize = 4;
  maxprot = 3;
  initprot = 3;
  nsects = 0;
  flags = 0;
}

-- The command, the four bytes, and an image of sixteen.
unfoldable file_bytes : List ℕ
unfolding words
file_bytes =
    words (0x19 ∷ 72 ∷ [])
    ++ segname
    ++ words (0x4000 ∷ 0 ∷ 0x10 ∷ 0 ∷ 0x48 ∷ 0 ∷ 4 ∷ 0 ∷ 3 ∷ 3 ∷ 0 ∷ 0 ∷ [])
    ++ (1 ∷ 2 ∷ 3 ∷ 4 ∷ [])
    ++ zeros 16

abbrev with_image : Machine
with_image = record (machine_of 0x1000 file_bytes) {
  context = record (machine_of 0x1000 file_bytes).context {
    ptr = 0x1000;
    img_addr = 0x104C;
    v_addr = 0x4000;
  };
}

command-read : read_segment_command_64 with_image.mem with_image.context.ptr ≡ some four_bytes
unfolding machine_of file_bytes read_segment_command_64
command-read = refl

data-named : has_name segname seg_pagezero ≡ false
unfolding has_name
data-named = refl

bytes-read : read_bytes with_image.mem 0x1048 4 ≡ some (1 ∷ 2 ∷ 3 ∷ 4 ∷ [])
unfolding machine_of file_bytes read_bytes
bytes-read = refl

place-read : read_bytes with_image.mem 0x104C 4 ≡ some (zeros 4)
unfolding machine_of file_bytes read_bytes
place-read = refl

-- The entry that the table has afterwards.
abbrev recorded : SegmentInfo
recorded = record { segname = segname; vmaddr = 0x4000; vmsize = 0x10; mapped_addr = 0x104C }

load_segment_64-contents_example :
    (m' : Machine) × (load_segment_64 host with_image ≡ ok 0 m')
    × (read_bytes m'.mem 0x104C 4 ≡ some (1 ∷ 2 ∷ 3 ∷ 4 ∷ []))
    × (m'.mem 0x1048 ≡ with_image.mem 0x1048)
    × (m'.context ≡ record with_image.context { segments = recorded ∷ [] })
unfolding machine_of has_name
load_segment_64-contents_example =
    load_segment_64-contents host four_bytes (1 ∷ 2 ∷ 3 ∷ 4 ∷ []) 0x1048 with_image (omega arith)
      (omega arith) command-read data-named (omega arith) (inr (omega arith)) bytes-read
      (IsMapped-of_read with_image.mem 4 0x104C place-read) (inl (omega arith))
