-- ===== src/Loader/Loaded.antt =====
-- loader_64 (main.c) from a file alone: what the image that it maps holds.
use maloader.Loader.Evolution.{Keeps-loader_64}
use maloader.Loader.Whole.{load_commands_64-maps}
use maloader.Loader.Outcome.{with_ptr}
use maloader.Common.{
  ℕ, ◌+◌, ◌-◌, ◌^◌, ◌<◌, ◌≤◌, ◌≡◌, ◌≢◌, refl, true, some, List, get_elem?, inl, inr, arith,
  ==-of_eq, Option-cases,
}
use maloader.Machine.{Mem, Machine, read_bytes, reads, u64, sub64, ◌>>=◌}
use maloader.Machine.Runs
use maloader.Machine.Runs.{Ensures}
use maloader.Machine.Evolves.{WellFormed}
use maloader.Machine.Windows.{window, IsPart, IsPart-window}
use maloader.Machine.Spares.{Leaves, Leaves-bind, Ensures-with}
use maloader.Formats.Parts.{read_header-IsPart}
use maloader.Host.{Host, MapsFresh}
use maloader.Formats.Header.{MachHeader64, read_mach_header_64, sizeof_mach_header_64, mh_execute}
use maloader.Formats.Commands.{SegmentCommand64, read_segment_command_64}
use maloader.Segments.{image_call}
use maloader.Segments.Image.{whole}
use maloader.Segments.Copies.{copies}
use maloader.Loader.{load_commands_64, loader_64}
use maloader.Loader.Layout.{IsCommands}
use maloader.Loader.Ranges.{AreLaidOut}

module _ (h : Host) (laws : MapsFresh h) (file : Mem) (base : ℕ) (header : MachHeader64)
    (segs : List SegmentCommand64) (m : Machine) (part : IsPart file m.mem)
    (mapped : h.mmap m.mem (image_call (whole segs)) ≡ some base)
    (header_read : read_mach_header_64 file m.context.memblock ≡ some header)
    (commands : IsCommands file header.ncmds (m.context.memblock + sizeof_mach_header_64) segs)
    (some_range : (whole segs).min_vmaddr < (whole segs).max_vmaddr)
    (some_base : (whole segs).min_vmaddr ≢ 0) (laid : AreLaidOut segs)
    (room : (whole segs).max_vmaddr - (whole segs).min_vmaddr + 0x1000 ≤ 2 ^ 64) where
  loader_64-lays :
      (i : ℕ) (seg : SegmentCommand64) (bs : List ℕ)
      → m.context.img_addr ≡ 0
      → m.context.memblock + sizeof_mach_header_64 < 2 ^ 64
      → header.filetype ≡ mh_execute
      → get_elem? segs i ≡ some seg
      → copies seg ≡ true
      → read_bytes file (u64 (m.context.memblock + seg.fileoff)) seg.filesize ≡ some bs
      → Leaves
          (λ _ m'.
            read_bytes m'.mem (u64 (base + sub64 seg.vmaddr (whole segs).min_vmaddr)) seg.filesize
            ≡ some bs)
          (loader_64 h m)
  unfolding loader_64 ◌>>=◌
  loader_64-lays i seg bs img fits exec listed has stored =
      let p = u64 (m.context.memblock + sizeof_mach_header_64) in
      rw (reads, read_header-IsPart file m.mem m.context.memblock part header_read)
        (rw (==-of_eq header.filetype mh_execute exec)
          (elim (Option-cases (read_segment_command_64 m.mem p)) [
            | inl e ↦ rw (reads, e) tt
            | inr (s, e) ↦
                rw (reads, e)
                  (Leaves-bind
                    (λ _ m'.
                      read_bytes m'.mem (u64 (base + sub64 seg.vmaddr (whole segs).min_vmaddr))
                        seg.filesize
                      ≡ some bs)
                    _ (load_commands_64 h header.ncmds (with_ptr m p)) _
                    (load_commands_64-maps h file m.mem m.context.memblock m.context.v_addr base
                      header segs part mapped header_read commands some_range laws some_base laid
                      room header.ncmds (m.context.memblock + sizeof_mach_header_64) i segs seg bs
                      (with_ptr m p) refl (refl, omega arith, img, refl) refl commands listed has
                      stored)
                    (λ _ m' there. there))
          ]))

-- From the `n` bytes of a file of type MH_EXECUTE at `lo`, without an image, and with a host that maps
-- fresh memory and answers `base` for the range of the segments: the 64-bit loader ends, and where it
-- returns, the image holds at the place of a segment that is copied the bytes that the file has of it.
-- A segment with bytes in the file is not __PAGEZERO, has room in memory for them and does not wrap
-- around; no two overlap in the file's own addresses; their range does not start at 0 and can be
-- rounded up to a page; the size of a segment's command is that of its header and its sections; no
-- command carries chained fixups; and the file's header ends below 2 ^ 64.
pub loader_64-contents :
    (h : Host) (lo n base i : ℕ) (header : MachHeader64) (segs : List SegmentCommand64)
    (seg : SegmentCommand64) (bs : List ℕ) (m : Machine)
    → MapsFresh h
    → WellFormed m
    → m.context.img_addr ≡ 0
    → m.context.memblock + sizeof_mach_header_64 < 2 ^ 64
    → read_mach_header_64 (window m.mem lo n) m.context.memblock ≡ some header
    → header.filetype ≡ mh_execute
    → IsCommands (window m.mem lo n) header.ncmds (m.context.memblock + sizeof_mach_header_64) segs
    → AreLaidOut segs
    → (whole segs).min_vmaddr ≢ 0
    → (whole segs).min_vmaddr < (whole segs).max_vmaddr
    → (whole segs).max_vmaddr - (whole segs).min_vmaddr + 0x1000 ≤ 2 ^ 64
    → h.mmap m.mem (image_call (whole segs)) ≡ some base
    → get_elem? segs i ≡ some seg
    → copies seg ≡ true
    → read_bytes (window m.mem lo n) (u64 (m.context.memblock + seg.fileoff)) seg.filesize ≡ some bs
    → Ensures
        (λ _ m'.
          read_bytes m'.mem (u64 (base + sub64 seg.vmaddr (whole segs).min_vmaddr)) seg.filesize
          ≡ some bs)
        (loader_64 h m)
loader_64-contents h lo n base i header segs seg bs m laws formed img fits header_read exec commands
      laid some_base some_range room mapped listed has stored =
    Runs.mono
      (Ensures-with ((Keeps-loader_64 h laws).run m formed) (
        loader_64-lays h laws (window m.mem lo n) base header segs m
          (IsPart-window m.mem m.mem lo n (λ a _ _. refl)) mapped header_read commands some_range
          some_base laid room i seg bs img fits exec listed has stored))
      (λ _ m' (_, there). there)
