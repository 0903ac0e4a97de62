-- ===== src/Loader/Whole.antt =====
-- loader_64 (main.c) as a whole, where the first segment maps the image: from the bytes of the file to
-- the bytes of the image.
use maloader.Segments.Extents.{HasSegments}
use mathlib.Core.Path.{subst}
use maloader.Common.{
  ℕ, zero, suc, ◌+◌, ◌-◌, ◌^◌, ◌<◌, ◌≤◌, ◌≡◌, ◌≢◌, refl, ap, ◌∙◌, sym, true, some, List, ◌∷◌,
  get_elem?, inl, inr, arith, ltb, ==-of_ne, ==-of_eq, Bool-cases,
}
use maloader.Machine.{Mem, Machine, ok, read_bytes, read_le, reads, u64, ◌>>=◌, success, map_zero}
use maloader.Machine.Memory.{IsOutside}
use maloader.Machine.Windows.{IsPart, read_le-IsPart}
use maloader.Machine.Spares.{Leaves, Leaves-bind}
use maloader.Formats.Parts.{read_segment-IsPart}
use maloader.Formats.Fields.{read_header-ncmds}
use maloader.Host.{Host, MapsFresh}
use maloader.Formats.Header.{MachHeader64, read_mach_header_64, sizeof_mach_header_64}
use maloader.Formats.Commands.{SegmentCommand64, read_segment_command_64, lc_segment_64}
use maloader.Segments.{Extent, image_call, ensure_image_mapping_64, load_segment_64, no_extent}
use maloader.Segments.Placement.{imaged, map_extent-imaged}
use maloader.Segments.Image.{whole, ensure_image_mapping_64-scan, extent_over-small}
use maloader.Segments.Contents.{ensure_image_mapping_64-mapped}
use maloader.Segments.Copies.{copies}
use maloader.Loader.{load_command_64, load_commands_64}
use maloader.Loader.Layout.{
  IsCommands, commands_end, segment, other, Places, StandsAt, place_in, source_in,
  load_command_64-other,
}
use maloader.Loader.Contents.{AreOff, AreDisjoint}
use maloader.Loader.Ranges.{
  HasSegments-of_IsCommands, AreLaidOut, AreLaidOut-Lies, HasRoom, IsOff-image, AreDisjoint-image,
  HasRoom-of_extent,
}
use maloader.Loader.Image.{load_commands_64-lays}

-- The first segment is loaded as it is where the image is mapped before.
load_segment_64-mapping :
    (h : Host) (m m' : Machine) {seg : SegmentCommand64}
    → ensure_image_mapping_64 h m ≡ ok success m'
    → m'.context.img_addr ≢ 0
    → read_segment_command_64 m.mem m.context.ptr ≡ some seg
    → read_segment_command_64 m'.mem m'.context.ptr ≡ some seg
    → load_segment_64 h m ≡ load_segment_64 h m'
unfolding load_segment_64 ◌>>=◌
load_segment_64-mapping h m m' ensured image read read' =
    let still = ensure_image_mapping_64-mapped h m' (==-of_ne m'.context.img_addr 0 image) in
    rw (reads, read, read') (rw (ensured, still) refl)

load_commands_64-mapping :
    (h : Host) (rounds : ℕ) (m m' : Machine) {seg : SegmentCommand64}
    → ensure_image_mapping_64 h m ≡ ok success m'
    → m'.context.img_addr ≢ 0
    → read_segment_command_64 m.mem m.context.ptr ≡ some seg
    → read_segment_command_64 m'.mem m'.context.ptr ≡ some seg
    → seg.cmd ≡ lc_segment_64
    → load_commands_64 h (suc rounds) m ≡ load_commands_64 h (suc rounds) m'
unfolding load_commands_64 load_command_64 ◌>>=◌
load_commands_64-mapping h rounds m m' {seg} ensured image read read' is_segment =
    rw (reads, read, read')
      (rw (==-of_eq seg.cmd lc_segment_64 is_segment)
        (rw (load_segment_64-mapping h m m' ensured image read read') refl))

IsPart-equal : (file mem mem' : Mem) → mem' ≡ mem → IsPart file mem → IsPart file mem'
IsPart-equal file mem mem' same part = record {
  at = λ a b has. ap (λ (n : Mem). n a) same ∙ part.at a b has;
}

-- A mapping that is fresh is in the place of no byte of the file.
IsOutside-fresh :
    (h : Host) (laws : MapsFresh h) (file mem : Mem) (e : Extent) (base a b : ℕ)
    → IsPart file mem
    → h.mmap mem (image_call e) ≡ some base
    → file a ≡ some b
    → IsOutside base (image_call e).length a
IsOutside-fresh h laws file mem e base a b part mapped has = elim (Bool-cases (ltb a base)) [
  | inl below ↦ inl (ground arith)
  | inr from ↦ elim (Bool-cases (ltb a (base + (image_call e).length))) [
    | inr above ↦ inr (ground arith)
    | inl upto ↦
        let free = laws.fresh mem (image_call e) base a mapped (ground arith) (ground arith) in
        absurd (cc (sym free ∙ part.at a b has))
  ]
]

map_zero-outside :
    (mem : Mem) (base len a : ℕ) → IsOutside base len a → map_zero mem base len a ≡ mem a
unfolding map_zero
map_zero-outside mem base len a (inl below) = ground arith
map_zero-outside mem base len a (inr above) = ground arith

module _ (h : Host) (file mem : Mem) (memblock v base : ℕ) (header : MachHeader64)
    (all : List SegmentCommand64) (part : IsPart file mem)
    (mapped : h.mmap mem (image_call (whole all)) ≡ some base)
    (header_read : read_mach_header_64 file memblock ≡ some header)
    (commands : IsCommands file header.ncmds (memblock + sizeof_mach_header_64) all)
    (some_range : (whole all).min_vmaddr < (whole all).max_vmaddr) where
  abbrev unplaced : Places
  unplaced = record { memblock = memblock; img_addr = 0; v_addr = v }

  abbrev placed : Places
  placed = record { memblock = memblock; img_addr = base; v_addr = (whole all).min_vmaddr }

  ensure_image_mapping_64-imaged :
      (p : ℕ) (m : Machine)
      → m.mem ≡ mem
      → StandsAt unplaced p m
      → ensure_image_mapping_64 h m ≡ ok success (imaged m (whole all) base)
  ensure_image_mapping_64-imaged p m same (at, _, img, _) =
      let part' = IsPart-equal file mem m.mem same part in
      ensure_image_mapping_64-scan h m header.ncmds all img
        (ap (λ q. read_le 4 m.mem (q + 16)) at
          ∙ read_le-IsPart file m.mem 4 (memblock + 16) part'
              (read_header-ncmds file memblock header_read))
        (subst (λ q. HasSegments m header.ncmds (q + sizeof_mach_header_64) all) (sym at)
          (HasSegments-of_IsCommands file m header.ncmds _ all part' commands))
      ∙ map_extent-imaged h (whole all) base m some_range
          (extent_over-small all no_extent (omega arith))
          (ap (λ n. h.mmap n (image_call (whole all))) same ∙ mapped)

  module _ (laws : MapsFresh h) (some_base : (whole all).min_vmaddr ≢ 0) (laid : AreLaidOut all)
      (room : (whole all).max_vmaddr - (whole all).min_vmaddr + 0x1000 ≤ 2 ^ 64) where
    placed-HasRoom : HasRoom (whole all) base
    placed-HasRoom =
        HasRoom-of_extent (whole all) base (extent_over-small all no_extent (omega arith)) room
          some_range (laws.in_space mem (image_call (whole all)) base mapped)

    placed-AreOff : AreOff placed all file
    placed-AreOff a b has =
        IsOff-image placed (whole all) refl placed-HasRoom all a
          (AreLaidOut-Lies all no_extent laid)
          (IsOutside-fresh h laws file mem (whole all) base a b part mapped has)

    placed-AreDisjoint : AreDisjoint placed all
    placed-AreDisjoint =
        AreDisjoint-image placed (whole all) refl placed-HasRoom all
          (AreLaidOut-Lies all no_extent laid) laid

    imaged-IsPart : (m : Machine) → m.mem ≡ mem → IsPart file (imaged m (whole all) base).mem
    imaged-IsPart m same = record {
      at = λ a b has.
          map_zero-outside m.mem base (image_call (whole all)).length a
            (IsOutside-fresh h laws file mem (whole all) base a b part mapped has)
          ∙ ap (λ (n : Mem). n a) same
          ∙ part.at a b has;
    }

    -- Up to the first segment the memory stays as it is; there the image is mapped.
    pub load_commands_64-maps :
        (rounds p i : ℕ) (segs : List SegmentCommand64) (seg : SegmentCommand64) (bs : List ℕ)
        (m : Machine)
        → m.mem ≡ mem
        → StandsAt unplaced p m
        → segs ≡ all
        → IsCommands file rounds p segs
        → get_elem? segs i ≡ some seg
        → copies seg ≡ true
        → read_bytes file (source_in placed seg) seg.filesize ≡ some bs
        → Leaves
            (λ _ m'. read_bytes m'.mem (place_in placed seg) seg.filesize ≡ some bs)
            (load_commands_64 h rounds m)
    unfolding load_commands_64 ◌>>=◌
    load_commands_64-maps zero p i segs seg bs m same stands whole_list commands_end listed has
          stored =
        absurd (cc listed)
    load_commands_64-maps (suc rounds) p i every seg bs m same stands whole_list
          (segment {segs} s read is_segment size few rest) listed has stored =
        let (at, here, img, _) = stands in
        let m1 = imaged m (whole all) base in
        let image = laws.not_null mem (image_call (whole all)) base mapped in
        let read' : read_segment_command_64 m.mem m.context.ptr ≡ some s =
          ap (read_segment_command_64 m.mem) here
          ∙ read_segment-IsPart file m.mem p (IsPart-equal file mem m.mem same part) read in
        let read1 : read_segment_command_64 m1.mem m1.context.ptr ≡ some s =
          ap (read_segment_command_64 m1.mem) here
          ∙ read_segment-IsPart file m1.mem p (imaged-IsPart m same) read in
        subst (Leaves (λ _ m'. read_bytes m'.mem (place_in placed seg) seg.filesize ≡ some bs))
          (sym (
            load_commands_64-mapping h rounds m m1 (ensure_image_mapping_64-imaged p m same stands)
              image read' read1 is_segment))
          (load_commands_64-lays h file placed image some_base (suc rounds) p i (s ∷ segs) seg bs m1
            (imaged-IsPart m same) (at, here, refl, refl) (segment s read is_segment size few rest)
            (subst (λ l. AreOff placed l file) (sym whole_list) placed-AreOff)
            (subst (AreDisjoint placed) (sym whole_list) placed-AreDisjoint) listed has stored)
    load_commands_64-maps (suc rounds) p i segs seg bs m same stands whole_list
          (other command read no_segment no_fixups rest) listed has stored =
        Leaves-bind (λ _ m'. StandsAt unplaced (u64 (p + command.cmdsize)) m' × (m'.mem ≡ m.mem)) _
          (load_command_64 h m) _
          (load_command_64-other h unplaced command p m stands
            (read_segment-IsPart file m.mem p (IsPart-equal file mem m.mem same part) read)
            no_segment no_fixups)
          (λ _ m' (stands', mem').
            load_commands_64-maps rounds _ i segs seg bs m' (mem' ∙ same) stands' whole_list rest
              listed has stored)
