-- ===== src/Formats/Parts.antt =====
-- A segment command (mach-o/loader.h) read from a part of the memory.
use maloader.Formats.Header.{MachHeader64, read_mach_header_64}
use maloader.Common.{Option, ℕ, ◌+◌, ◌≡◌, some, none, ◌⊎◌, inl, inr, Option-cases, sym, ◌∙◌}
use maloader.Machine.{Mem, read_bytes}
use maloader.Machine.Windows.{IsPart, agree, read_bytes-IsPart}
use maloader.Formats.Optional.{◌>>=◌, u32_at, u64_at, chars_at}
use maloader.Formats.Commands.{SegmentCommand64, read_segment_command_64}

agree_bytes :
    (part mem : Mem) (n p : ℕ)
    → IsPart part mem
    → (read_bytes part p n ≡ none) ⊎ (read_bytes mem p n ≡ read_bytes part p n)
agree_bytes part mem n p is_part = elim (Option-cases (read_bytes part p n)) [
  | inl e ↦ inl e
  | inr (bs, e) ↦ inr (read_bytes-IsPart part mem n p bs is_part e ∙ sym e)
]

then_same :
    {A B : Type 0} (o o' : Option A) (k k' : A → Option B) {b : B}
    → (o ≡ none) ⊎ (o' ≡ o)
    → ((a : A) → k a ≡ some b → k' a ≡ some b)
    → (o >>= k) ≡ some b
    → (o' >>= k') ≡ some b
then_same none o' k k' same next e = absurd (cc e)
then_same (some a) o' k k' (inl e') next e = absurd (cc e')
then_same (some a) o' k k' (inr e') next e = rw e' (next a e)

pub read_segment-IsPart :
    (part mem : Mem) (p : ℕ) {seg : SegmentCommand64}
    → IsPart part mem
    → read_segment_command_64 part p ≡ some seg
    → read_segment_command_64 mem p ≡ some seg
unfolding read_segment_command_64
read_segment-IsPart part mem p is_part =
    then_same (u32_at part p 0) (u32_at mem p 0) _ _ (agree part mem 4 (p + 0) is_part) λ cmd.
      then_same (u32_at part p 4) (u32_at mem p 4) _ _ (agree part mem 4 (p + 4) is_part) λ cmdsize.
        then_same (chars_at part p 8) (chars_at mem p 8) _ _
          (agree_bytes part mem 16 (p + 8) is_part)
          λ segname.
            then_same (u64_at part p 24) (u64_at mem p 24) _ _ (agree part mem 8 (p + 24) is_part)
              λ vmaddr.
                then_same (u64_at part p 32) (u64_at mem p 32) _ _
                  (agree part mem 8 (p + 32) is_part)
                  λ vmsize.
                    then_same (u64_at part p 40) (u64_at mem p 40) _ _
                      (agree part mem 8 (p + 40) is_part)
                      λ fileoff.
                        then_same (u64_at part p 48) (u64_at mem p 48) _ _
                          (agree part mem 8 (p + 48) is_part)
                          λ filesize.
                            then_same (u32_at part p 56) (u32_at mem p 56) _ _
                              (agree part mem 4 (p + 56) is_part)
                              λ maxprot.
                                then_same (u32_at part p 60) (u32_at mem p 60) _ _
                                  (agree part mem 4 (p + 60) is_part)
                                  λ initprot.
                                    then_same (u32_at part p 64) (u32_at mem p 64) _ _
                                      (agree part mem 4 (p + 64) is_part)
                                      λ nsects.
                                        then_same (u32_at part p 68) (u32_at mem p 68) _ _
                                          (agree part mem 4 (p + 68) is_part) λ flags. λ e. e

pub read_header-IsPart :
    (part mem : Mem) (p : ℕ) {header : MachHeader64}
    → IsPart part mem
    → read_mach_header_64 part p ≡ some header
    → read_mach_header_64 mem p ≡ some header
unfolding read_mach_header_64
read_header-IsPart part mem p is_part =
    then_same (u32_at part p 0) (u32_at mem p 0) _ _ (agree part mem 4 (p + 0) is_part) λ magic.
      then_same (u32_at part p 4) (u32_at mem p 4) _ _ (agree part mem 4 (p + 4) is_part) λ cputype.
        then_same (u32_at part p 8) (u32_at mem p 8) _ _ (agree part mem 4 (p + 8) is_part)
          λ cpusubtype.
            then_same (u32_at part p 12) (u32_at mem p 12) _ _ (agree part mem 4 (p + 12) is_part)
              λ filetype.
                then_same (u32_at part p 16) (u32_at mem p 16) _ _
                  (agree part mem 4 (p + 16) is_part)
                  λ ncmds.
                    then_same (u32_at part p 20) (u32_at mem p 20) _ _
                      (agree part mem 4 (p + 20) is_part)
                      λ sizeofcmds.
                        then_same (u32_at part p 24) (u32_at mem p 24) _ _
                          (agree part mem 4 (p + 24) is_part)
                          λ flags.
                            then_same (u32_at part p 28) (u32_at mem p 28) _ _
                              (agree part mem 4 (p + 28) is_part) λ reserved. λ e. e
