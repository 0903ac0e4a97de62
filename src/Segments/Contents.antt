-- ===== src/Segments/Contents.antt =====
-- load_segment_64 (main.c) byte by byte: what the image holds of a segment's bytes in the file.
use maloader.Common.{
  ℕ, ◌+◌, ◌≤◌, ◌≡◌, ◌≢◌, refl, ap, ◌∙◌, sym, false, some, ◌⊎◌, inl, inr, ◌&&◌, List, length, ◌==◌,
  ==-of_ne, ltb, arith, ◌++◌, [], ◌∷◌, if◌then◌else◌, Bool-cases,
}
use maloader.Machine.{
  Machine, ok, u64, sub64, reads, read_bytes, put_bytes, memcpy, store_bytes, ◌>>=◌, success,
  SegmentInfo,
}
use maloader.Machine.Memory.{
  IsMapped, read_bytes-of_mapped, length-read_bytes, put_bytes-outside, IsOutside,
  read_bytes-put_bytes,
}
use maloader.Host.{Host}
use maloader.Formats.Commands.{SegmentCommand64, read_segment_command_64}
use maloader.Segments.{
  has_name, seg_pagezero, ensure_image_mapping_64, record_segment, copy_segment_64, load_segment_64,
  seg_text, mapped_addr_of,
}

-- The place of a segment's bytes in the image, and in the file.
abbrev pub place : Machine → SegmentCommand64 → ℕ
place m seg = u64 (m.context.img_addr + sub64 seg.vmaddr m.context.v_addr)

abbrev pub source : Machine → SegmentCommand64 → ℕ
source m seg = u64 (m.context.memblock + seg.fileoff)

abbrev pub IsApart : (p q n : ℕ) → Type 0
IsApart p q n = (p + n ≤ q) ⊎ (q + n ≤ p)

no_overlap : (p q n : ℕ) → IsApart p q n → (ltb p (q + n) && ltb q (p + n)) ≡ false
no_overlap p q n (inl below) = ground arith
no_overlap p q n (inr above) = ground arith

memcpy-copies :
    (p q n : ℕ) (bs : List ℕ) (m : Machine)
    → IsApart p q n
    → read_bytes m.mem q n ≡ some bs
    → IsMapped m.mem p n
    → memcpy p q n m ≡ ok tt (record m { mem = put_bytes m.mem p bs })
unfolding memcpy ◌>>=◌
memcpy-copies p q n bs m apart stored mapped =
    let (old, there) = read_bytes-of_mapped m.mem n p mapped in
    let there' : read_bytes m.mem p (length bs) ≡ some old =
      ap (read_bytes m.mem p) (length-read_bytes m.mem n q stored) ∙ there in
    rw (no_overlap p q n apart) (rw (reads, stored) (rw (store_bytes, there') refl))

pub ensure_image_mapping_64-mapped :
    (h : Host) (m : Machine)
    → (m.context.img_addr == 0) ≡ false
    → ensure_image_mapping_64 h m ≡ ok success m
unfolding ensure_image_mapping_64 ◌>>=◌
ensure_image_mapping_64-mapped h m image = rw image refl

-- The machine behind the load of a segment: its bytes are in the image, and its entry in the table.
abbrev pub with_segment : Machine → SegmentCommand64 → List ℕ → Machine
with_segment m seg bs = record m {
  mem = put_bytes m.mem (place m seg) bs;
  context = record_segment seg.segname seg.vmaddr seg.vmsize m.context;
}

copy_segment_64-copies :
    (seg : SegmentCommand64) (bs : List ℕ) (m : Machine)
    → (m.context.img_addr == 0) ≡ false
    → (m.context.v_addr == 0) ≡ false
    → has_name seg.segname seg_pagezero ≡ false
    → (seg.filesize == 0) ≡ false
    → IsApart (place m seg) (source m seg) seg.filesize
    → read_bytes m.mem (source m seg) seg.filesize ≡ some bs
    → IsMapped m.mem (place m seg) seg.filesize
    → copy_segment_64 seg m ≡ ok tt (record m { mem = put_bytes m.mem (place m seg) bs })
unfolding copy_segment_64 ◌>>=◌
copy_segment_64-copies seg bs m image base named some_size apart stored mapped =
    rw (named, some_size)
      (rw image (
        rw base (memcpy-copies (place m seg) (source m seg) seg.filesize bs m apart stored mapped)))

load_segment_64-with_segment :
    (h : Host) (seg : SegmentCommand64) (bs : List ℕ) (m : Machine)
    → m.context.img_addr ≢ 0
    → m.context.v_addr ≢ 0
    → read_segment_command_64 m.mem m.context.ptr ≡ some seg
    → has_name seg.segname seg_pagezero ≡ false
    → seg.filesize ≢ 0
    → IsApart (place m seg) (source m seg) seg.filesize
    → read_bytes m.mem (source m seg) seg.filesize ≡ some bs
    → IsMapped m.mem (place m seg) seg.filesize
    → load_segment_64 h m ≡ ok seg.nsects (with_segment m seg bs)
unfolding load_segment_64 ◌>>=◌
load_segment_64-with_segment h seg bs m image base read named some_size apart stored mapped =
    let image' = ==-of_ne m.context.img_addr 0 image in
    rw (reads, read)
      (rw (ensure_image_mapping_64-mapped h m image') (
        rw
          (copy_segment_64-copies seg bs m image' (==-of_ne m.context.v_addr 0 base) named
            (==-of_ne seg.filesize 0 some_size) apart stored mapped)
          refl))

-- The entry of a segment that is copied: where its bytes are, which for __TEXT is taken to be the
-- start of the image.
abbrev pub entry_of : Machine → SegmentCommand64 → SegmentInfo
entry_of m seg = record {
  segname = seg.segname;
  vmaddr = seg.vmaddr;
  vmsize = seg.vmsize;
  mapped_addr = if has_name seg.segname seg_text then m.context.img_addr else place m seg;
}

-- A table of 32 entries is full.
abbrev pub listed : List SegmentInfo → SegmentInfo → List SegmentInfo
listed segments entry = if ltb (length segments) 32 then segments ++ (entry ∷ []) else segments

mapped_addr_of-copied :
    (seg : SegmentCommand64) (m : Machine)
    → m.context.img_addr ≢ 0
    → m.context.v_addr ≢ 0
    → has_name seg.segname seg_pagezero ≡ false
    → mapped_addr_of m.context seg.segname seg.vmaddr ≡ (entry_of m seg).mapped_addr
unfolding mapped_addr_of
mapped_addr_of-copied seg m image base named =
    rw named (elim (Bool-cases (has_name seg.segname seg_text)) [
      | inl text ↦ rw text refl
      | inr other ↦
          rw (other, ==-of_ne m.context.img_addr 0 image, ==-of_ne m.context.v_addr 0 base) refl
    ])

record_segment-listed :
    (seg : SegmentCommand64) (m : Machine)
    → m.context.img_addr ≢ 0
    → m.context.v_addr ≢ 0
    → has_name seg.segname seg_pagezero ≡ false
    → record_segment seg.segname seg.vmaddr seg.vmsize m.context
      ≡ record m.context { segments = listed m.context.segments (entry_of m seg) }
unfolding record_segment
record_segment-listed seg m image base named =
    let mapped = mapped_addr_of-copied seg m image base named in
    elim (Bool-cases (ltb (length m.context.segments) 32)) [
      | inl fits ↦ rw (mapped, fits) refl
      | inr full ↦ rw full refl
    ]

-- Where an image is mapped, loading a segment that has bytes in the file, and is not __PAGEZERO,
-- copies them: behind it the bytes at the segment's place in the image are those of the file, and a
-- byte that lies elsewhere is as it was. The table has one entry more, with the segment's name,
-- address and size and the place of its bytes, for __TEXT the start of the image; a table of 32
-- entries stays as it is, and so does the rest of the context. The result is the number of sections.
-- The bytes can be read, their place is mapped, and the two do not overlap.
pub load_segment_64-contents :
    (h : Host) (seg : SegmentCommand64) (bs : List ℕ) (a : ℕ) (m : Machine)
    → m.context.img_addr ≢ 0
    → m.context.v_addr ≢ 0
    → read_segment_command_64 m.mem m.context.ptr ≡ some seg
    → has_name seg.segname seg_pagezero ≡ false
    → seg.filesize ≢ 0
    → IsApart (place m seg) (source m seg) seg.filesize
    → read_bytes m.mem (source m seg) seg.filesize ≡ some bs
    → IsMapped m.mem (place m seg) seg.filesize
    → IsOutside (place m seg) seg.filesize a
    → (m' : Machine) × (load_segment_64 h m ≡ ok seg.nsects m')
      × (read_bytes m'.mem (place m seg) seg.filesize ≡ some bs)
      × (m'.mem a ≡ m.mem a)
      × (m'.context ≡ record m.context { segments = listed m.context.segments (entry_of m seg) })
load_segment_64-contents h seg bs a m image base read named some_size apart stored mapped outside =
    let size : length bs ≡ seg.filesize = length-read_bytes m.mem seg.filesize _ stored in
    (
      with_segment m seg bs,
      load_segment_64-with_segment h seg bs m image base read named some_size apart stored mapped,
      ap (read_bytes (put_bytes m.mem (place m seg) bs) (place m seg)) (sym size)
          ∙ read_bytes-put_bytes m.mem (place m seg) bs,
      put_bytes-outside m.mem (place m seg) bs a (rw size outside),
      record_segment-listed seg m image base named,
    )
