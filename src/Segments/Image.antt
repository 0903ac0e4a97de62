-- ===== src/Segments/Image.antt =====
-- ensure_image_mapping_64 (main.c) as a whole: from the load commands to an image with room for every
-- segment.
use maloader.Common.{
  ℕ, ◌+◌, ◌-◌, ◌^◌, ◌≤◌, ◌<◌, ◌≡◌, ◌≢◌, ◌⊎◌, inl, inr, refl, ◌∙◌, true, some, List, [], ◌∷◌,
  get_elem?, ◌==◌, arith, Option-cases, none,
}
use maloader.Machine.{Machine, ok, read_le, reads, success, failure, u64, sub64, ◌>>=◌}
use maloader.Host.{Host, MapsFresh}
use maloader.Formats.Header.{sizeof_mach_header_64}
use maloader.Formats.Commands.{SegmentCommand64}
use maloader.Segments.{
  Extent, no_extent, is_mappable, widen, image_call, map_extent, ensure_image_mapping_64,
}
use maloader.Segments.Extents.{
  HasSegments, extent_over, scan_commands-HasSegments, extent_over-Covers, copy_in_image,
}
use maloader.Segments.Placement.{imaged, map_extent-outcome, map_extent-imaged, map_extent-refused}

pub extent_over-small :
    (segs : List SegmentCommand64) (e : Extent)
    → e.max_vmaddr < 2 ^ 64
    → (extent_over segs e).max_vmaddr < 2 ^ 64
unfolding extent_over widen
extent_over-small [] e small = small
extent_over-small (seg ∷ segs) e small = extent_over-small segs (widen seg e) (ground arith)

pub mappable-nonempty : (seg : SegmentCommand64) → is_mappable seg ≡ true → seg.vmsize ≢ 0
unfolding is_mappable
mappable-nonempty seg mappable empty = ground arith

-- The range over all of the segments.
abbrev pub whole : List SegmentCommand64 → Extent
whole segs = extent_over segs no_extent

pub ensure_image_mapping_64-scan :
    (h : Host) (m : Machine) (ncmds : ℕ) (segs : List SegmentCommand64)
    → m.context.img_addr ≡ 0
    → read_le 4 m.mem (m.context.memblock + 16) ≡ some ncmds
    → HasSegments m ncmds (m.context.memblock + sizeof_mach_header_64) segs
    → ensure_image_mapping_64 h m ≡ map_extent h (whole segs) m
unfolding ensure_image_mapping_64 ◌>>=◌
ensure_image_mapping_64-scan h m ncmds segs fresh count found =
    let unmapped : (m.context.img_addr == 0) ≡ true = ground arith in
    let scanned =
      scan_commands-HasSegments ncmds (m.context.memblock + sizeof_mach_header_64) segs no_extent m
        found in
    rw unmapped (rw (count, reads) (rw scanned refl))

-- Without an image, and where mmap maps fresh memory: the load commands either give no image, and
-- nothing changes, or an image that is not at NULL, with room for each segment that is mapped and does
-- not wrap around, at the place that the segment is copied to. The range is one that can be rounded up
-- to a page.
pub ensure_image_mapping_64-room :
    (h : Host) (m : Machine) (ncmds i : ℕ) (segs : List SegmentCommand64) (seg : SegmentCommand64)
    → MapsFresh h
    → m.context.img_addr ≡ 0
    → read_le 4 m.mem (m.context.memblock + 16) ≡ some ncmds
    → HasSegments m ncmds (m.context.memblock + sizeof_mach_header_64) segs
    → (whole segs).max_vmaddr - (whole segs).min_vmaddr + 0x1000 ≤ 2 ^ 64
    → get_elem? segs i ≡ some seg
    → is_mappable seg ≡ true
    → seg.vmaddr + seg.vmsize < 2 ^ 64
    → (ensure_image_mapping_64 h m ≡ ok failure m)
      ⊎ ((base : ℕ) × (ensure_image_mapping_64 h m ≡ ok success (imaged m (whole segs) base))
          × (base ≢ 0)
          × (base ≤ u64 (base + sub64 seg.vmaddr (whole segs).min_vmaddr))
          × (u64 (base + sub64 seg.vmaddr (whole segs).min_vmaddr) + seg.vmsize
              ≤ base + (image_call (whole segs)).length))
ensure_image_mapping_64-room h m ncmds i segs seg laws fresh count found room at mappable fits =
    let scanned = ensure_image_mapping_64-scan h m ncmds segs fresh count found in
    elim (map_extent-outcome h (whole segs) m laws) [
      | inl refused ↦ inl (scanned ∙ refused)
      | inr (base, mapped, not_null, in_space, _) ↦
          let (from, upto) =
            copy_in_image (whole segs) seg base
              (extent_over-Covers segs i seg no_extent at mappable fits)
              (extent_over-small segs no_extent (omega arith)) room in_space
              (mappable-nonempty seg mappable) in
          inr (base, scanned ∙ mapped, not_null, from, upto)
    ]

-- Without an image, and with at least one segment that is mapped and does not wrap around among the
-- load commands: the answer is mmap's. Where that fails, so does the mapping, and nothing changes;
-- else the image is where mmap says, for a range that holds the whole of the segment.
pub ensure_image_mapping_64-answered :
    (h : Host) (m : Machine) (ncmds i : ℕ) (segs : List SegmentCommand64) (seg : SegmentCommand64)
    → m.context.img_addr ≡ 0
    → read_le 4 m.mem (m.context.memblock + 16) ≡ some ncmds
    → HasSegments m ncmds (m.context.memblock + sizeof_mach_header_64) segs
    → get_elem? segs i ≡ some seg
    → is_mappable seg ≡ true
    → seg.vmaddr + seg.vmsize < 2 ^ 64
    → ((h.mmap m.mem (image_call (whole segs)) ≡ none)
        × (ensure_image_mapping_64 h m ≡ ok failure m))
      ⊎ ((base : ℕ) × (h.mmap m.mem (image_call (whole segs)) ≡ some base)
          × (ensure_image_mapping_64 h m ≡ ok success (imaged m (whole segs) base))
          × ((whole segs).min_vmaddr ≤ seg.vmaddr)
          × (seg.vmaddr + seg.vmsize ≤ (whole segs).max_vmaddr))
ensure_image_mapping_64-answered h m ncmds i segs seg unmapped count found at mappable fits =
    let scanned = ensure_image_mapping_64-scan h m ncmds segs unmapped count found in
    let covered = extent_over-Covers segs i seg no_extent at mappable fits in
    let some_range : (whole segs).min_vmaddr < (whole segs).max_vmaddr =
      omega (arith, covered, mappable-nonempty seg mappable) in
    elim (Option-cases (h.mmap m.mem (image_call (whole segs)))) [
      | inl failed ↦ inl (failed, scanned ∙ map_extent-refused h (whole segs) m failed)
      | inr (base, mapped) ↦ inr (
        base,
        mapped,
        scanned
            ∙ map_extent-imaged h (whole segs) base m some_range
                (extent_over-small segs no_extent (omega arith)) mapped,
        covered.0,
        covered.1,
      )
    ]
