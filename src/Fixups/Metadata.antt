-- ===== src/Fixups/Metadata.antt =====
-- The headers of the fixups (mach-o/fixup-chains.h), read from a part of the memory.
use maloader.Common.{ℕ, ◌+◌, ◌≡◌, some, arith}
use maloader.Machine.{Mem}
use maloader.Machine.Windows.{IsPart, agree}
use maloader.Formats.Fixups.{
  ChainedFixupsHeader, ChainedStartsInSegment, read_chained_fixups_header,
  read_chained_starts_in_segment,
}

pub read_chained_starts-IsPart :
    (part mem : Mem) (p : ℕ) {seg : ChainedStartsInSegment}
    → IsPart part mem
    → read_chained_starts_in_segment part p ≡ some seg
    → read_chained_starts_in_segment mem p ≡ some seg
unfolding read_chained_starts_in_segment
read_chained_starts-IsPart part mem p {seg} is_part e = ground (
  arith,
  agree part mem 4 (p + 0) is_part,
  agree part mem 2 (p + 4) is_part,
  agree part mem 2 (p + 6) is_part,
  agree part mem 8 (p + 8) is_part,
  agree part mem 4 (p + 16) is_part,
  agree part mem 2 (p + 20) is_part,
)

pub read_chained_header-IsPart :
    (part mem : Mem) (p : ℕ) {hdr : ChainedFixupsHeader}
    → IsPart part mem
    → read_chained_fixups_header part p ≡ some hdr
    → read_chained_fixups_header mem p ≡ some hdr
unfolding read_chained_fixups_header
read_chained_header-IsPart part mem p is_part e = ground (
  arith,
  agree part mem 4 (p + 0) is_part,
  agree part mem 4 (p + 4) is_part,
  agree part mem 4 (p + 8) is_part,
  agree part mem 4 (p + 12) is_part,
  agree part mem 4 (p + 16) is_part,
  agree part mem 4 (p + 20) is_part,
  agree part mem 4 (p + 24) is_part,
)
