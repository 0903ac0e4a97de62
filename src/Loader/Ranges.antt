-- ===== src/Loader/Ranges.antt =====
-- The segments that loader_64 (main.c) meets are those of ensure_image_mapping_64's scan, and where
-- they lie in the image that is mapped for them.
use maloader.Segments.Alignment.{align_memory-IsLeastMultiple}
use maloader.Machine.Memory.{IsOutside, IsOutside-empty}
use maloader.Common.{
  ℕ, zero, suc, ◌+◌, ◌-◌, ◌^◌, ◌<◌, ◌≤◌, ◌≡◌, ◌≢◌, refl, ap, ◌∙◌, true, some, List, [], ◌∷◌, All,
  inl, inr, ◌⊎◌, arith, Bool-cases, ◌==◌, eq_of_==, ne_of_==,
}
use maloader.Machine.{Mem, Machine, sub64}
use maloader.Machine.Windows.{IsPart}
use maloader.Formats.Parts.{read_segment-IsPart}
use maloader.Formats.Fields.{read_segment-cmd}
use maloader.Formats.Commands.{SegmentCommand64}
use maloader.Segments.{Extent, image_call, is_mappable}
use maloader.Segments.Extents.{
  HasSegments, done, segment, other, extent_over-Covers, Covers, extent_over,
}
use maloader.Loader.Layout.{IsCommands, Places, place_in}
use maloader.Loader.Layout as Layout
use maloader.Loader.Contents.{IsOff, AreDisjoint, IsDisjoint}

pub HasSegments-of_IsCommands :
    (file : Mem) (m : Machine) (rounds p : ℕ) (segs : List SegmentCommand64)
    → IsPart file m.mem
    → IsCommands file rounds p segs
    → HasSegments m rounds p segs
HasSegments-of_IsCommands file m zero p all part Layout.commands_end = done
HasSegments-of_IsCommands file m (suc rounds) p all part
      (Layout.segment {segs} seg read is_segment size few rest) =
    let read' = read_segment-IsPart file m.mem p part read in
    let (cmd, cmdsize) = read_segment-cmd m.mem p read' in
    segment seg seg.cmdsize (cmd ∙ ap some is_segment) read' cmdsize
      (HasSegments-of_IsCommands file m rounds _ segs part rest)
HasSegments-of_IsCommands file m (suc rounds) p segs part
      (Layout.other command read no_segment no_fixups rest) =
    let (cmd, cmdsize) = read_segment-cmd m.mem p (read_segment-IsPart file m.mem p part read) in
    other command.cmd command.cmdsize cmd no_segment cmdsize
      (HasSegments-of_IsCommands file m rounds _ segs part rest)

-- A segment has no bytes in the file, or is one that is mapped, with room for its bytes in memory.
abbrev pub IsLaidOut : SegmentCommand64 → Type 0
IsLaidOut seg =
    (seg.filesize ≡ 0)
    ⊎ ((is_mappable seg ≡ true) × (seg.filesize ≤ seg.vmsize) × (seg.vmaddr + seg.vmsize < 2 ^ 64))

-- The segments are laid out, and no two overlap in the file's own addresses.
abbrev pub AreLaidOut : List SegmentCommand64 → Type 0
AreLaidOut [] = Unit {0}
AreLaidOut (seg ∷ segs) =
    IsLaidOut seg
    × All (λ s. IsDisjoint seg.vmaddr seg.filesize s.vmaddr s.filesize) segs
    × AreLaidOut segs

-- What the range over the segments has of one of them.
abbrev Lies : Extent → SegmentCommand64 → Type 0
Lies e seg = (seg.filesize ≡ 0) ⊎ (Covers e seg × (seg.filesize ≤ seg.vmsize))

pub AreLaidOut-Lies :
    (segs : List SegmentCommand64) (e : Extent)
    → AreLaidOut segs
    → All (Lies (extent_over segs e)) segs
unfolding extent_over
AreLaidOut-Lies [] e laid = tt
AreLaidOut-Lies (seg ∷ segs) e (inl empty, _, laid) = (inl empty, AreLaidOut-Lies segs _ laid)
AreLaidOut-Lies (seg ∷ segs) e (inr (mappable, room, fits), _, laid) = (
  inr (extent_over-Covers (seg ∷ segs) 0 seg e refl mappable fits, room),
  AreLaidOut-Lies segs _ laid,
)

-- The image at `img` has room for the range.
abbrev pub HasRoom : Extent → (img : ℕ) → Type 0
HasRoom e img =
    (e.max_vmaddr - e.min_vmaddr ≤ (image_call e).length)
    × (img + (image_call e).length ≤ 2 ^ 64)
    × (e.max_vmaddr < 2 ^ 64)

pub HasRoom-of_extent :
    (e : Extent) (img : ℕ)
    → e.max_vmaddr < 2 ^ 64
    → e.max_vmaddr - e.min_vmaddr + 0x1000 ≤ 2 ^ 64
    → e.min_vmaddr < e.max_vmaddr
    → img + (image_call e).length ≤ 2 ^ 64
    → HasRoom e img
unfolding image_call
HasRoom-of_extent e img small room some_range in_space =
    let (q, aligned, (above, _)) =
      align_memory-IsLeastMultiple (sub64 e.max_vmaddr e.min_vmaddr) 12 (omega arith)
        (omega arith) in
    (omega (arith, aligned), in_space, small)

module _ (w : Places) (e : Extent) (at : w.v_addr ≡ e.min_vmaddr)
    (room : HasRoom e w.img_addr) where
  -- Where a segment with bytes in the file lies in the image.
  place_in-offset :
      (seg : SegmentCommand64)
      → Covers e seg
      → seg.filesize ≤ seg.vmsize
      → seg.filesize ≢ 0
      → (place_in w seg ≡ w.img_addr + (seg.vmaddr - e.min_vmaddr))
        × (place_in w seg + seg.filesize ≤ w.img_addr + (image_call e).length)
  place_in-offset seg (from, upto) fits some_bytes =
      let (wide, in_space, small) = room in (omega (arith, at), omega (arith, at))

  Lies-Outside :
      (seg : SegmentCommand64) (a : ℕ)
      → Lies e seg
      → IsOutside w.img_addr (image_call e).length a
      → IsOutside (place_in w seg) seg.filesize a
  Lies-Outside seg a (inl empty) outside = IsOutside-empty (place_in w seg) seg.filesize a empty
  Lies-Outside seg a (inr (covered, fits)) outside = elim (Bool-cases (seg.filesize == 0)) [
    | inl empty ↦ IsOutside-empty (place_in w seg) seg.filesize a (eq_of_== _ _ empty)
    | inr some_bytes ↦
        let (here, upto) = place_in-offset seg covered fits (ne_of_== some_bytes) in
        side outside here upto
  ]
    where
      side :
          IsOutside w.img_addr (image_call e).length a
          → place_in w seg ≡ w.img_addr + (seg.vmaddr - e.min_vmaddr)
          → place_in w seg + seg.filesize ≤ w.img_addr + (image_call e).length
          → IsOutside (place_in w seg) seg.filesize a
      side (inl below) here upto = inl (omega arith)
      side (inr above) here upto = inr (omega arith)

  pub IsOff-image :
      (segs : List SegmentCommand64) (a : ℕ)
      → All (Lies e) segs
      → IsOutside w.img_addr (image_call e).length a
      → IsOff w segs a
  IsOff-image [] a lies outside = tt
  IsOff-image (seg ∷ segs) a (this, lies) outside =
      (Lies-Outside seg a this outside, IsOff-image segs a lies outside)

  Lies-IsDisjoint :
      (seg s : SegmentCommand64)
      → Lies e seg
      → Lies e s
      → IsDisjoint seg.vmaddr seg.filesize s.vmaddr s.filesize
      → IsDisjoint (place_in w seg) seg.filesize (place_in w s) s.filesize
  Lies-IsDisjoint seg s (inl empty) there disjoint = inl empty
  Lies-IsDisjoint seg s (inr here) (inl empty) disjoint = inr (inl empty)
  Lies-IsDisjoint seg s (inr here) (inr there) (inl empty) = inl empty
  Lies-IsDisjoint seg s (inr here) (inr there) (inr (inl empty)) = inr (inl empty)
  Lies-IsDisjoint seg s (inr ((from, upto), fits)) (inr ((from', upto'), fits'))
        (inr (inr disjoint)) =
      elim (Bool-cases (seg.filesize == 0)) [
        | inl empty ↦ inl (eq_of_== _ _ empty)
        | inr some_bytes ↦ elim (Bool-cases (s.filesize == 0)) [
          | inl empty ↦ inr (inl (eq_of_== _ _ empty))
          | inr some_bytes' ↦ inr (
              inr (
                moved disjoint (place_in-offset seg (from, upto) fits (ne_of_== some_bytes)).0
                  (place_in-offset s (from', upto') fits' (ne_of_== some_bytes')).0))
        ]
      ]
    where
      moved :
          (seg.vmaddr + seg.filesize ≤ s.vmaddr) ⊎ (s.vmaddr + s.filesize ≤ seg.vmaddr)
          → place_in w seg ≡ w.img_addr + (seg.vmaddr - e.min_vmaddr)
          → place_in w s ≡ w.img_addr + (s.vmaddr - e.min_vmaddr)
          → (place_in w seg + seg.filesize ≤ place_in w s)
            ⊎ (place_in w s + s.filesize ≤ place_in w seg)
      moved (inl below) here there = inl (omega (arith, from, from'))
      moved (inr above) here there = inr (omega (arith, from, from'))

  pub AreDisjoint-image :
      (segs : List SegmentCommand64) → All (Lies e) segs → AreLaidOut segs → AreDisjoint w segs
  AreDisjoint-image [] lies laid = tt
  AreDisjoint-image (seg ∷ segs) (this, lies) (_, far, laid) =
      (each segs lies far, AreDisjoint-image segs lies laid)
    where
      each :
          (rest : List SegmentCommand64)
          → All (Lies e) rest
          → All (λ s. IsDisjoint seg.vmaddr seg.filesize s.vmaddr s.filesize) rest
          → All (λ s. IsDisjoint (place_in w seg) seg.filesize (place_in w s) s.filesize) rest
      each [] _ _ = tt
      each (s ∷ rest) (there, lies') (one, others) =
          (Lies-IsDisjoint seg s this there one, each rest lies' others)
