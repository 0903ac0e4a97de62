-- ===== src/Segments/Copies.antt =====
-- load_segment_64 (main.c) with an image, on every branch: a segment is copied, or it is not.
use mathlib.Core.Path.{subst}
use maloader.Common.{
  ℕ, ◌+◌, ◌≡◌, ◌≢◌, refl, ap, true, false, some, ◌⊎◌, inl, inr, ◌&&◌, not, List, length, ◌==◌,
  ==-of_ne, ltb, Bool, Bool-cases, Option-cases, arith, sym,
}
use maloader.Machine.{
  Machine, MachContext, ok, reads, read_bytes, put_bytes, memcpy, store_bytes, ◌>>=◌,
  mach_loader_max_segments,
}
use maloader.Machine.Spares.{Leaves, Leaves-bind, Leaves-mono}
use maloader.Host.{Host}
use maloader.Formats.Commands.{SegmentCommand64, read_segment_command_64}
use maloader.Segments.{has_name, seg_pagezero, record_segment, copy_segment_64, load_segment_64}
use maloader.Segments.Contents.{place, source, ensure_image_mapping_64-mapped}

-- The segment has bytes to copy.
abbrev pub copies : SegmentCommand64 → Bool
copies seg = not (has_name seg.segname seg_pagezero) && not (seg.filesize == 0)

-- What a segment's load makes of the memory.
abbrev pub Copied : Machine → SegmentCommand64 → Machine → Type 0
Copied m seg m' =
    ((copies seg ≡ false) × (m'.mem ≡ m.mem))
    ⊎ ((copies seg ≡ true)
        × (bs : List ℕ) × (read_bytes m.mem (source m seg) seg.filesize ≡ some bs)
        × (m'.mem ≡ put_bytes m.mem (place m seg) bs))

-- The context keeps the file, the image and the current command.
abbrev pub SamePlaces : MachContext → MachContext → Type 0
SamePlaces c c' =
    (c'.memblock ≡ c.memblock)
    × (c'.ptr ≡ c.ptr)
    × (c'.img_addr ≡ c.img_addr)
    × (c'.v_addr ≡ c.v_addr)

abbrev CopiesBytes : (p q n : ℕ) → Machine → Unit {0} → Machine → Type 0
CopiesBytes p q n m _ m' =
    (bs : List ℕ) × (read_bytes m.mem q n ≡ some bs)
    × (m' ≡ record m { mem = put_bytes m.mem p bs })

-- The tests of copy_segment_64 on the segment.
copies-parts :
    (seg : SegmentCommand64)
    → copies seg ≡ true
    → (not (has_name seg.segname seg_pagezero) ≡ true) × (not (seg.filesize == 0) ≡ true)
copies-parts seg has = elim (Bool-cases (has_name seg.segname seg_pagezero)) [
  | inl zero_page ↦ absurd (ground (arith, has, zero_page))
  | inr named ↦ elim (Bool-cases (seg.filesize == 0)) [
    | inl empty ↦ absurd (ground (arith, has, named, empty))
    | inr some_size ↦ (ap not named, ap not some_size)
  ]
]

memcpy-Leaves :
    (p q n : ℕ) (m : Machine)
    → Leaves
        (λ _ m'.
          (bs : List ℕ) × (read_bytes m.mem q n ≡ some bs)
          × (m' ≡ record m { mem = put_bytes m.mem p bs }))
        (memcpy p q n m)
unfolding memcpy ◌>>=◌
memcpy-Leaves p q n m = elim (Bool-cases (ltb p (q + n) && ltb q (p + n))) [
  | inl overlap ↦ rw overlap tt
  | inr disjoint ↦ rw disjoint (elim (Option-cases (read_bytes m.mem q n)) [
    | inl e ↦ rw (reads, e) tt
    | inr (bs, e) ↦
        rw (reads, e)
          (elim (Option-cases (read_bytes m.mem p (length bs))) [
            | inl e' ↦ rw (e', store_bytes) tt
            | inr (old, e') ↦ rw (e', store_bytes) (bs, refl, refl)
          ])
  ])
]

record_segment-SamePlaces :
    (segname : List ℕ) (vmaddr vmsize : ℕ) (c : MachContext)
    → SamePlaces c (record_segment segname vmaddr vmsize c)
unfolding record_segment
record_segment-SamePlaces segname vmaddr vmsize c =
    elim (Bool-cases (ltb (length c.segments) mach_loader_max_segments)) [
      | inl e ↦ rw (e, record_segment) (refl, refl, refl, refl)
      | inr e ↦ rw (e, record_segment) (refl, refl, refl, refl)
    ]

abbrev AfterCopy : Machine → SegmentCommand64 → Unit {0} → Machine → Type 0
AfterCopy m seg _ m' = Copied m seg m' × (m'.context ≡ m.context)

copy_segment_64-memcpy :
    (seg : SegmentCommand64) (m : Machine)
    → (m.context.img_addr == 0) ≡ false
    → (m.context.v_addr == 0) ≡ false
    → copies seg ≡ true
    → copy_segment_64 seg m ≡ memcpy (place m seg) (source m seg) seg.filesize m
unfolding copy_segment_64 ◌>>=◌
copy_segment_64-memcpy seg m image base has =
    let (named, some_size) = copies-parts seg has in rw (named, some_size) (rw image (rw base refl))

copy_segment_64-none :
    (seg : SegmentCommand64) (m : Machine) → copies seg ≡ false → copy_segment_64 seg m ≡ ok tt m
unfolding copy_segment_64 ◌>>=◌
copy_segment_64-none seg m has_not = elim (Bool-cases (has_name seg.segname seg_pagezero)) [
  | inl zero_page ↦ rw zero_page refl
  | inr named ↦ elim (Bool-cases (seg.filesize == 0)) [
    | inl empty ↦ rw (named, empty) refl
    | inr some_size ↦ absurd (ground (arith, has_not, named, some_size))
  ]
]

copy_segment_64-Copied :
    (seg : SegmentCommand64) (m : Machine)
    → (m.context.img_addr == 0) ≡ false
    → (m.context.v_addr == 0) ≡ false
    → Leaves (AfterCopy m seg) (copy_segment_64 seg m)
copy_segment_64-Copied seg m image base = elim (Bool-cases (copies seg)) [
  | inr has_not ↦
      subst (Leaves (AfterCopy m seg)) (sym (copy_segment_64-none seg m has_not))
        (inl (has_not, refl), refl)
  | inl has ↦ subst (Leaves (AfterCopy m seg)) (sym (copy_segment_64-memcpy seg m image base has)) (
      Leaves-mono (CopiesBytes (place m seg) (source m seg) seg.filesize m) (AfterCopy m seg)
        (memcpy (place m seg) (source m seg) seg.filesize m)
        (memcpy-Leaves (place m seg) (source m seg) seg.filesize m)
        (λ _ m' (bs, stored, e). (
          inr (has, bs, stored, ap (λ (n : Machine). n.mem) e),
          ap (λ (n : Machine). n.context) e,
        )))
]

-- Where an image is mapped, at a preferred address that is not NULL.
pub load_segment_64-Copied :
    (h : Host) (seg : SegmentCommand64) (m : Machine)
    → m.context.img_addr ≢ 0
    → m.context.v_addr ≢ 0
    → read_segment_command_64 m.mem m.context.ptr ≡ some seg
    → Leaves
        (λ n m'. (n ≡ seg.nsects) × Copied m seg m' × SamePlaces m.context m'.context)
        (load_segment_64 h m)
unfolding load_segment_64 ◌>>=◌
load_segment_64-Copied h seg m image base read =
    let image' = ==-of_ne m.context.img_addr 0 image in
    rw (reads, read)
      (rw (ensure_image_mapping_64-mapped h m image') (
        Leaves-bind (AfterCopy m seg) _ (copy_segment_64 seg m) _
          (copy_segment_64-Copied seg m image' (==-of_ne m.context.v_addr 0 base))
          (λ _ m' (copied, same). (
            refl,
            copied,
            subst (λ c. SamePlaces c (record_segment seg.segname seg.vmaddr seg.vmsize m'.context))
                same (record_segment-SamePlaces seg.segname seg.vmaddr seg.vmsize m'.context),
          ))))
