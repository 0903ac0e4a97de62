-- ===== src/Fixups/Starts.antt =====
-- dump_chained_fixups (main.c) as a whole: from the payload of LC_DYLD_CHAINED_FIXUPS to the pointers
-- that are applied.
use mathlib.Core.Path.{subst}
use maloader.Common.{
  ℕ, zero, suc, ◌+◌, ◌*◌, ◌≤◌, ◌<◌, ◌≡◌, ◌≢◌, refl, sym, ap, ◌∙◌, true, false, some, inl, inr, List,
  [], ◌++◌, ◌==◌, ==-of_ne, ==-of_eq, lt→ltb, le→not-ltb, Bool-cases,
}
use maloader.Machine.{Mem, Machine, SegmentInfo, ok, and_then, read_le, reads, ◌>>=◌}
use maloader.Machine.Windows.{IsPart, read_le-IsPart}
use maloader.Machine.Footprint.{SameOn, and_then-congr}
use maloader.Host.{Host}
use maloader.Formats.Fixups.{
  ChainedFixupsHeader, ChainedStartsInSegment, read_chained_starts_in_segment,
  sizeof_chained_starts_in_segment, ptr_64_offset,
}
use maloader.Fixups.{is_loaded, dump_chained_64_offset_entries, dump_segment, dump_segments}
use maloader.Fixups.Metadata.{read_chained_starts-IsPart}
use maloader.Fixups.Confined.{IsNoStream}
use maloader.Fixups.Walk.{Link, AreSeparate, AreNoStreams, IsByteOf, apply_all}
use maloader.Fixups.Pages.{
  IsPages, IsPages-congr, apply_all-append, apply_all-behind, walk_pages-IsPages,
}
use maloader.Fixups.Links.{
  Has, Avoid, All-append, IsByteOf-left, IsByteOf-right, AreSeparate-append, AreNoStreams-append,
}

-- Why segment `i` of the starts table has no pointer that is applied; `off` is its entry there.
pub data IsPassed (file : Mem) (starts fixups_end : ℕ) (segments : List SegmentInfo) (i off : ℕ)
    : Type 0 where
  no_chains : off ≡ 0 → IsPassed file starts fixups_end segments i off
  behind_end :
      off ≢ 0
      → fixups_end < starts + off + sizeof_chained_starts_in_segment
      → IsPassed file starts fixups_end segments i off
  other_format :
      (seg : ChainedStartsInSegment)
      → off ≢ 0
      → starts + off + sizeof_chained_starts_in_segment ≤ fixups_end
      → read_chained_starts_in_segment file (starts + off) ≡ some seg
      → seg.pointer_format ≢ ptr_64_offset
      → IsPassed file starts fixups_end segments i off
  not_loaded :
      (seg : ChainedStartsInSegment)
      → off ≢ 0
      → starts + off + sizeof_chained_starts_in_segment ≤ fixups_end
      → read_chained_starts_in_segment file (starts + off) ≡ some seg
      → is_loaded segments i ≡ false
      → IsPassed file starts fixups_end segments i off

-- `es` are the links of the chains of the segments from `i` on, of which `rounds` are left.
pub data IsStarts (file : Mem) (starts fixups_end : ℕ) (segments : List SegmentInfo) (mem : Mem)
    (img : ℕ) : (rounds i : ℕ) → List Link → Type 0 where
  starts_end : {i : ℕ} → IsStarts file starts fixups_end segments mem img zero i []
  passed :
      {rounds i : ℕ} {es : List Link} (off : ℕ)
      → read_le 4 file (starts + 4 + 4 * i) ≡ some off
      → IsPassed file starts fixups_end segments i off
      → IsStarts file starts fixups_end segments mem img rounds (i + 1) es
      → IsStarts file starts fixups_end segments mem img (suc rounds) i es
  segment :
      {rounds i : ℕ} {es rest : List Link} (off : ℕ) (seg : ChainedStartsInSegment)
      → read_le 4 file (starts + 4 + 4 * i) ≡ some off
      → off ≢ 0
      → starts + off + sizeof_chained_starts_in_segment ≤ fixups_end
      → read_chained_starts_in_segment file (starts + off) ≡ some seg
      → seg.pointer_format ≡ ptr_64_offset
      → is_loaded segments i ≡ true
      → IsPages file (starts + off) seg mem img seg.page_count 0 es
      → IsStarts file starts fixups_end segments mem img rounds (i + 1) rest
      → IsStarts file starts fixups_end segments mem img (suc rounds) i (es ++ rest)

IsStarts-congr :
    {file : Mem} {starts fixups_end : ℕ} {segments : List SegmentInfo} {mem : Mem} {img : ℕ}
    {rounds i : ℕ} {es : List Link} (mem' : Mem)
    → ((a : ℕ) → IsByteOf es a → mem' a ≡ mem a)
    → IsStarts file starts fixups_end segments mem img rounds i es
    → IsStarts file starts fixups_end segments mem' img rounds i es
IsStarts-congr mem' same starts_end = starts_end
IsStarts-congr mem' same (passed off read why more) =
    passed off read why (IsStarts-congr mem' same more)
IsStarts-congr mem' same
      (segment {es} {rest} off seg read some_off within stored format loaded pages more) =
    segment off seg read some_off within stored format loaded
      (IsPages-congr mem' (λ a byte. same a (IsByteOf-left es rest a byte)) pages)
      (IsStarts-congr mem' (λ a byte. same a (IsByteOf-right es rest a byte)) more)

module _ (h : Host) (base : ℕ) (hdr : ChainedFixupsHeader) (file : Mem)
    (starts fixups_end : ℕ) where
  dump_segment-skips :
      (i off : ℕ) (m : Machine)
      → IsPart file m.mem
      → read_le 4 m.mem (starts + 4 + 4 * i) ≡ some off
      → IsPassed file starts fixups_end m.context.segments i off
      → dump_segment h base hdr starts fixups_end i m ≡ ok tt m
  unfolding dump_segment dump_chained_64_offset_entries ◌>>=◌
  dump_segment-skips i off m part read (no_chains none_there) =
      rw (reads, read) (rw (==-of_eq off 0 none_there) refl)
  dump_segment-skips i off m part read (behind_end some_off behind) =
      rw (reads, read) (rw (==-of_ne off 0 some_off, lt→ltb _ _ behind) refl)
  dump_segment-skips i off m part read (other_format seg some_off within stored other) =
      rw (reads, read)
        (rw (==-of_ne off 0 some_off, le→not-ltb _ _ within)
          (rw (reads, read_chained_starts-IsPart file m.mem (starts + off) part stored)
            (rw (==-of_ne seg.pointer_format ptr_64_offset other) refl)))
  dump_segment-skips i off m part read (not_loaded seg some_off within stored unloaded) =
      rw (reads, read)
        (rw (==-of_ne off 0 some_off, le→not-ltb _ _ within)
          (rw (reads, read_chained_starts-IsPart file m.mem (starts + off) part stored)
            (elim (Bool-cases (seg.pointer_format == ptr_64_offset)) [
              | inl e ↦ rw (e, unloaded) refl
              | inr e ↦ rw e refl
            ])))

  module _ (no_stream : (a : ℕ) → Has file a → IsNoStream h a) where
    dump_segment-applies :
        (i off : ℕ) (seg : ChainedStartsInSegment) {es : List Link} (m : Machine)
        → IsPart file m.mem
        → read_le 4 m.mem (starts + 4 + 4 * i) ≡ some off
        → off ≢ 0
        → starts + off + sizeof_chained_starts_in_segment ≤ fixups_end
        → read_chained_starts_in_segment file (starts + off) ≡ some seg
        → seg.pointer_format ≡ ptr_64_offset
        → is_loaded m.context.segments i ≡ true
        → IsPages file (starts + off) seg m.mem m.context.img_addr seg.page_count 0 es
        → AreSeparate es
        → AreNoStreams h es
        → Avoid es (Has file)
        → dump_segment h base hdr starts fixups_end i m ≡ apply_all h base hdr es m
    unfolding dump_segment dump_chained_64_offset_entries ◌>>=◌
    dump_segment-applies i off seg m part read some_off within stored format loaded pages separate
          no_streams avoids =
        rw (reads, read)
          (rw (==-of_ne off 0 some_off, le→not-ltb _ _ within)
            (rw (reads, read_chained_starts-IsPart file m.mem (starts + off) part stored)
              (rw (==-of_eq seg.pointer_format ptr_64_offset format, loaded)
                (walk_pages-IsPages h base hdr (starts + off) seg file no_stream seg.page_count 0 m
                  part pages separate no_streams avoids))))

    pub dump_segments-IsStarts :
        (rounds i : ℕ) {es : List Link} (m : Machine)
        → IsPart file m.mem
        → IsStarts file starts fixups_end m.context.segments m.mem m.context.img_addr rounds i es
        → AreSeparate es
        → AreNoStreams h es
        → Avoid es (Has file)
        → dump_segments h base hdr starts fixups_end rounds i m ≡ apply_all h base hdr es m
    unfolding dump_segments ◌>>=◌
    dump_segments-IsStarts zero i m part starts_end separate no_streams avoids =
        unfold apply_all in refl
    dump_segments-IsStarts (suc rounds) i m part (passed off read why more) separate no_streams
          avoids =
        ap (λ r. and_then r (λ _. dump_segments h base hdr starts fixups_end rounds (i + 1)))
          (dump_segment-skips i off m part (read_le-IsPart file m.mem 4 _ part read) why)
        ∙ dump_segments-IsStarts rounds (i + 1) m part more separate no_streams avoids
    dump_segments-IsStarts (suc rounds) i m part
          (segment {es} {rest} off seg read some_off within stored format loaded pages more)
          separate no_streams avoids =
        let (separate', separate'', between) = AreSeparate-append es rest separate in
        let (no_streams', no_streams'') = AreNoStreams-append h es rest no_streams in
        let (avoids', avoids'') = All-append _ es rest avoids in
        ap (λ r. and_then r (λ _. dump_segments h base hdr starts fixups_end rounds (i + 1)))
          (dump_segment-applies i off seg m part (read_le-IsPart file m.mem 4 _ part read) some_off
            within stored format loaded pages separate' no_streams' avoids')
        ∙ and_then-congr (λ _ m'. SameOn (IsByteOf rest) m m' × IsPart file m'.mem)
            (apply_all h base hdr es m) _ (λ _. apply_all h base hdr rest)
            (apply_all-behind h base hdr file no_stream es rest m part no_streams'' between avoids')
            (λ _ m' (same, part').
              dump_segments-IsStarts rounds (i + 1) m' part' (moved m' same more) separate''
                no_streams'' avoids'')
        ∙ sym (apply_all-append h base hdr es rest m)
      where
        moved :
            (m' : Machine)
            → SameOn (IsByteOf rest) m m'
            → IsStarts file starts fixups_end m.context.segments m.mem m.context.img_addr rounds
                (i + 1)
                rest
            → IsStarts file starts fixups_end m'.context.segments m'.mem m'.context.img_addr rounds
                (i + 1)
                rest
        moved m' (same, img, segments) starts' =
            subst
              (λ s.
                IsStarts file starts fixups_end s m'.mem m'.context.img_addr rounds (i + 1) rest)
              (sym segments)
              (subst
                (λ p.
                  IsStarts file starts fixups_end m.context.segments m'.mem p rounds (i + 1) rest)
                (sym img) (IsStarts-congr m'.mem same starts'))
