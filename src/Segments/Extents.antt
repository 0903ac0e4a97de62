-- ===== src/Segments/Extents.antt =====
-- The scan of the load commands (main.c, ensure_image_mapping_64): the range that it finds against
-- the segments that it met.
use maloader.Common.{
  some-injective, ℕ, zero, suc, ◌+◌, ◌-◌, ◌^◌, ◌≤◌, ◌<◌, ◌≡◌, ◌≢◌, refl, ◌∙◌, arith, true, some,
  List, [], ◌∷◌, get_elem?, ==-of_ne,
}
use maloader.Machine.{Machine, ok, read_le, u64, sub64, ◌>>=◌, reads}
use maloader.Formats.Commands.{SegmentCommand64, read_segment_command_64, lc_segment_64}
use maloader.Segments.Alignment.{align_memory-IsLeastMultiple}
use maloader.Segments.{Extent, image_call, is_mappable, widen, scan_command, scan_commands}

-- The range over all of `segs`, from `e` on.
unfoldable pub extent_over : List SegmentCommand64 → Extent → Extent
unfolding widen
extent_over [] e = e
extent_over (seg ∷ segs) e = extent_over segs (widen seg e)

-- `segs` are the segments among the `rounds` load commands at `p`.
pub data HasSegments (m : Machine) : (rounds p : ℕ) → List SegmentCommand64 → Type 0 where
  done : {p : ℕ} → HasSegments m 0 p []
  segment :
      {rounds p : ℕ} {segs : List SegmentCommand64} (seg : SegmentCommand64) (cmdsize : ℕ)
      → read_le 4 m.mem p ≡ some lc_segment_64
      → read_segment_command_64 m.mem p ≡ some seg
      → read_le 4 m.mem (p + 4) ≡ some cmdsize
      → HasSegments m rounds (u64 (p + cmdsize)) segs
      → HasSegments m (suc rounds) p (seg ∷ segs)
  other :
      {rounds p : ℕ} {segs : List SegmentCommand64} (cmd cmdsize : ℕ)
      → read_le 4 m.mem p ≡ some cmd
      → cmd ≢ lc_segment_64
      → read_le 4 m.mem (p + 4) ≡ some cmdsize
      → HasSegments m rounds (u64 (p + cmdsize)) segs
      → HasSegments m (suc rounds) p segs

scan_command-segment :
    (p : ℕ) (e : Extent) (m : Machine) {seg : SegmentCommand64}
    → read_le 4 m.mem p ≡ some lc_segment_64
    → read_segment_command_64 m.mem p ≡ some seg
    → scan_command p e m ≡ ok (widen seg e) m
unfolding scan_command ◌>>=◌
scan_command-segment p e m is_segment stored = rw (is_segment, reads) (rw (stored, reads) refl)

scan_command-other :
    (p : ℕ) (e : Extent) (m : Machine) {cmd : ℕ}
    → read_le 4 m.mem p ≡ some cmd
    → cmd ≢ lc_segment_64
    → scan_command p e m ≡ ok e m
unfolding scan_command ◌>>=◌
scan_command-other p e m {cmd} stored differs =
    rw (stored, reads) (rw (==-of_ne cmd lc_segment_64 differs) refl)

scan_commands-suc :
    (rounds p : ℕ) (e : Extent) (m : Machine) {e' : Extent} {cmdsize : ℕ}
    → scan_command p e m ≡ ok e' m
    → read_le 4 m.mem (p + 4) ≡ some cmdsize
    → scan_commands (suc rounds) p e m ≡ scan_commands rounds (u64 (p + cmdsize)) e' m
unfolding scan_commands ◌>>=◌
scan_commands-suc rounds p e m scanned size = rw scanned (rw (size, reads) refl)

-- The scan finds the range over the segments that it meets, and changes nothing.
pub scan_commands-HasSegments :
    (rounds p : ℕ) (segs : List SegmentCommand64) (e : Extent) (m : Machine)
    → HasSegments m rounds p segs
    → scan_commands rounds p e m ≡ ok (extent_over segs e) m
unfolding scan_commands extent_over ◌>>=◌
scan_commands-HasSegments zero p all e m done = refl
scan_commands-HasSegments (suc rounds) p all e m
      (segment {segs} seg cmdsize is_segment stored size rest) =
    scan_commands-suc rounds p e m (scan_command-segment p e m is_segment stored) size
    ∙ scan_commands-HasSegments rounds _ segs _ m rest
scan_commands-HasSegments (suc rounds) p segs e m (other cmd cmdsize stored differs size rest) =
    scan_commands-suc rounds p e m (scan_command-other p e m stored differs) size
    ∙ scan_commands-HasSegments rounds _ segs e m rest

-- The range holds the whole of a segment.
abbrev pub Covers : Extent → SegmentCommand64 → Type 0
Covers e seg = (e.min_vmaddr ≤ seg.vmaddr) × (seg.vmaddr + seg.vmsize ≤ e.max_vmaddr)

widen-Covers :
    (seg : SegmentCommand64) (e : Extent)
    → is_mappable seg ≡ true
    → seg.vmaddr + seg.vmsize < 2 ^ 64
    → Covers (widen seg e) seg
unfolding widen
widen-Covers seg e mappable fits = (ground (arith, mappable), ground (arith, mappable))

-- A step of the scan gives up nothing.
widen-keeps :
    (seg first : SegmentCommand64) (e : Extent) → Covers e first → Covers (widen seg e) first
unfolding widen
widen-keeps seg first e (from, upto) = (ground arith, ground arith)

extent_over-keeps :
    (segs : List SegmentCommand64) (seg : SegmentCommand64) (e : Extent)
    → Covers e seg
    → Covers (extent_over segs e) seg
unfolding extent_over
extent_over-keeps [] seg e covered = covered
extent_over-keeps (first ∷ segs) seg e covered =
    extent_over-keeps segs seg _ (widen-keeps first seg e covered)

-- Each segment of the scan that is mapped, and does not wrap around, lies in the range of the scan.
pub extent_over-Covers :
    (segs : List SegmentCommand64) (i : ℕ) (seg : SegmentCommand64) (e : Extent)
    → get_elem? segs i ≡ some seg
    → is_mappable seg ≡ true
    → seg.vmaddr + seg.vmsize < 2 ^ 64
    → Covers (extent_over segs e) seg
unfolding extent_over
extent_over-Covers [] i seg e found mappable fits = absurd (cc found)
extent_over-Covers (first ∷ segs) zero seg e found mappable fits =
    let same : first ≡ seg = some-injective first seg found in
    extent_over-keeps segs seg _ (rw same (widen-Covers seg e mappable fits))
extent_over-Covers (first ∷ segs) (suc i) seg e found mappable fits =
    extent_over-Covers segs i seg _ found mappable fits

-- A segment with some bytes that the range covers is copied to bytes that all lie in the image that
-- is mapped for the range, where the range, rounded up to a page, and the image end within the
-- address space.
pub copy_in_image :
    (e : Extent) (seg : SegmentCommand64) (img : ℕ)
    → Covers e seg
    → e.max_vmaddr < 2 ^ 64
    → e.max_vmaddr - e.min_vmaddr + 0x1000 ≤ 2 ^ 64
    → img + (image_call e).length ≤ 2 ^ 64
    → seg.vmsize ≢ 0
    → (img ≤ u64 (img + sub64 seg.vmaddr e.min_vmaddr))
      × (u64 (img + sub64 seg.vmaddr e.min_vmaddr) + seg.vmsize ≤ img + (image_call e).length)
unfolding image_call
copy_in_image e seg img (from, upto) small room in_space some_size =
    let (q, aligned, (above, _)) =
      align_memory-IsLeastMultiple (sub64 e.max_vmaddr e.min_vmaddr) 12 (omega arith)
        (omega arith) in
    (omega (arith, aligned), omega (arith, aligned))
