-- ===== src/Formats/Fields.antt =====
-- Single fields of the structs of mach-o/loader.h, from the read of the whole.
use maloader.Common.{some-injective, Option, ℕ, ◌+◌, ◌≡◌, refl, ap, some, none, ◌∙◌, arith}
use maloader.Machine.{Mem, read_le}
use maloader.Formats.Optional.{◌>>=◌, u32_at, u64_at, chars_at}
use maloader.Formats.Header.{MachHeader64, read_mach_header_64}
use maloader.Formats.Commands.{SegmentCommand64, read_segment_command_64}

-- What follows a read that has a result.
read_then :
    {A B : Type 0} (o : Option A) (k : A → Option B) {b : B} (P : Type 0)
    → ((a : A) → o ≡ some a → k a ≡ some b → P)
    → (o >>= k) ≡ some b
    → P
read_then none k P next e = absurd (cc e)
read_then (some a) k P next e = next a refl e

-- A read whose result does not matter.
skip :
    {A B : Type 0} (o : Option A) (k : A → Option B) {b : B} (P : Type 0)
    → ((a : A) → k a ≡ some b → P)
    → (o >>= k) ≡ some b
    → P
skip o k P next = read_then o k P (λ a _. next a)

pub read_segment-cmd :
    (mem : Mem) (p : ℕ) {seg : SegmentCommand64}
    → read_segment_command_64 mem p ≡ some seg
    → (read_le 4 mem p ≡ some seg.cmd) × (read_le 4 mem (p + 4) ≡ some seg.cmdsize)
unfolding read_segment_command_64
read_segment-cmd mem p {seg} =
    let Goal : Type 0 =
      (read_le 4 mem p ≡ some seg.cmd) × (read_le 4 mem (p + 4) ≡ some seg.cmdsize) in
    let start : read_le 4 mem p ≡ read_le 4 mem (p + 0) = ap (read_le 4 mem) (omega arith) in
    read_then (u32_at mem p 0) _ Goal λ cmd is_cmd.
      read_then (u32_at mem p 4) _ Goal λ cmdsize is_size. skip (chars_at mem p 8) _ Goal λ segname.
        skip (u64_at mem p 24) _ Goal λ vmaddr. skip (u64_at mem p 32) _ Goal λ vmsize.
          skip (u64_at mem p 40) _ Goal λ fileoff. skip (u64_at mem p 48) _ Goal λ filesize.
            skip (u32_at mem p 56) _ Goal λ maxprot. skip (u32_at mem p 60) _ Goal λ initprot.
              skip (u32_at mem p 64) _ Goal λ nsects. skip (u32_at mem p 68) _ Goal λ flags e.
                let same = some-injective _ _ e in
                (
                  start ∙ is_cmd ∙ ap (λ (s : SegmentCommand64). some s.cmd) same,
                  is_size ∙ ap (λ (s : SegmentCommand64). some s.cmdsize) same,
                )

pub read_header-ncmds :
    (mem : Mem) (p : ℕ) {header : MachHeader64}
    → read_mach_header_64 mem p ≡ some header
    → read_le 4 mem (p + 16) ≡ some header.ncmds
unfolding read_mach_header_64
read_header-ncmds mem p {header} =
    let Goal : Type 0 = read_le 4 mem (p + 16) ≡ some header.ncmds in
    skip (u32_at mem p 0) _ Goal λ magic. skip (u32_at mem p 4) _ Goal λ cputype.
      skip (u32_at mem p 8) _ Goal λ cpusubtype. skip (u32_at mem p 12) _ Goal λ filetype.
        read_then (u32_at mem p 16) _ Goal λ ncmds is_ncmds.
          skip (u32_at mem p 20) _ Goal λ sizeofcmds. skip (u32_at mem p 24) _ Goal λ flags.
            skip (u32_at mem p 28) _ Goal λ reserved e.
              is_ncmds ∙ ap (λ (s : MachHeader64). some s.ncmds) (some-injective _ _ e)
