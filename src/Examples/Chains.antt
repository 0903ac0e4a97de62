-- ===== src/Examples/Chains.antt =====
-- Chains of rebases and binds, and a payload with one page, at concrete bytes.
use maloader.Fixups.Prefix.{IsPrefix, IsPrefix-take}
use maloader.Fixups.Settled.{dump_chained_fixups-settles}
use maloader.Machine.Runs.{Ensures}
use maloader.Machine.Evolves.{WellFormed}
use maloader.Common.{ℕ, ◌+◌, ◌≡◌, refl, some, inl, inr, List, [], ◌∷◌, ◌++◌, take, arith, false}
use maloader.Machine.{Machine, SegmentInfo, ok, read_le, le_bytes, u64}
use maloader.Machine.Windows.{window}
use maloader.Formats.Fixups.{
  ChainedFixupsHeader, ChainedStartsInSegment, read_chained_fixups_header,
  read_chained_starts_in_segment,
}
use maloader.Fixups.{
  chained64_next, walk_chain, dump_chained_fixups, is_loaded, chained64_is_bind,
  chained64_rebase_target,
}
use maloader.Fixups.Fields.{rebase_word, bind_word}
use maloader.Fixups.Walk.{
  Link, IsChain, last, more, AreApart, AreSeparate, AreNoStreams, apply_all, walk_chain-IsChain,
}
use maloader.Fixups.Pages.{IsPages, pages_end, chained}
use maloader.Fixups.Starts.{IsStarts, starts_end, segment}
use maloader.Fixups.Payload.{
  payload, recounted, HoldsNoStream, IsPayload, dump_chained_fixups-IsPayload,
  dump_chained_fixups-refuses,
}
use maloader.Examples.{host, machine_of, machine_of-WellFormed}
use maloader.Examples.Files.{words, zeros}

-- The header, a starts table of one segment, and its page; the image follows at 0x4040.
unfoldable payload_bytes : List ℕ
unfolding words
payload_bytes =
    words (0 ∷ 28 ∷ 80 ∷ 80 ∷ 0 ∷ 1 ∷ 0 ∷ [])
    ++ words (1 ∷ 8 ∷ [])
    ++ words (24 ∷ 0x61000 ∷ 0 ∷ 0 ∷ 0 ∷ 1 ∷ [])
    ++ zeros 4
    ++ le_bytes 8 (rebase_word 0x10 0 2)
    ++ le_bytes 8 (bind_word 0 0 0)

-- A rebase, and a bind behind it.
abbrev links : List Link
links = (0x4040, rebase_word 0x10 0 2) ∷ (0x4048, bind_word 0 0 0) ∷ []

abbrev image_segment : SegmentInfo
image_segment = record { segname = []; vmaddr = 0; vmsize = 0x10; mapped_addr = 0x4040 }

abbrev fixable : Machine
fixable = record (machine_of 0x4000 payload_bytes) {
  context = record (machine_of 0x4000 payload_bytes).context {
    img_addr = 0x4040;
    segments = image_segment ∷ [];
  };
}

links-IsChain : IsChain fixable.mem 0x4040 links
unfolding machine_of payload_bytes read_le chained64_next
links-IsChain = more (rebase_word 0x10 0 2) refl (omega arith) (last (bind_word 0 0 0) refl refl)

links-IsPrefix : IsPrefix fixable.mem 512 0x4040 links
links-IsPrefix = IsPrefix-take 512 links-IsChain

links-AreSeparate : AreSeparate links
links-AreSeparate = ((inr (omega arith), tt), (tt, tt))

links-AreNoStreams : AreNoStreams host links
unfolding host
links-AreNoStreams = (
  (inl (omega arith), (inl (omega arith), tt)),
  (inl (omega arith), (inl (omega arith), tt)),
  (inl (omega arith), (inl (omega arith), tt)),
)

abbrev header : ChainedFixupsHeader
header = record {
  fixups_version = 0;
  starts_offset = 28;
  imports_offset = 80;
  symbols_offset = 80;
  imports_count = 0;
  imports_format = 1;
  symbols_format = 0;
}

walk_chain-IsChain_example :
    walk_chain host 0x4000 header 512 0x4040 fixable
    ≡ apply_all host 0x4000 header (take 512 links) fixable
walk_chain-IsChain_example =
    walk_chain-IsChain host 0x4000 header 512 fixable links-IsChain links-AreSeparate
      links-AreNoStreams

abbrev page : ChainedStartsInSegment
page = record {
  size = 24;
  page_size = 0x1000;
  pointer_format = 6;
  segment_offset = 0;
  max_valid_pointer = 0;
  page_count = 1;
}

header-read : read_chained_fixups_header (window fixable.mem 0x4000 60) 0x4000 ≡ some header
unfolding machine_of payload_bytes window read_chained_fixups_header
header-read = refl

one_segment : read_le 4 (window fixable.mem 0x4000 60) 0x401C ≡ some 1
unfolding machine_of payload_bytes window read_le
one_segment = refl

links-IsPages : IsPages (window fixable.mem 0x4000 60) 0x4024 page fixable.mem 0x4040 1 0 links
unfolding machine_of payload_bytes window read_le
links-IsPages = chained 0 refl (omega arith) refl links-IsPrefix pages_end

links-IsStarts :
    IsStarts
      (window fixable.mem 0x4000 60)
      0x401C
      0x403C
      fixable.context.segments
      fixable.mem
      0x4040
      1
      0
      links
unfolding machine_of payload_bytes window read_chained_starts_in_segment is_loaded
links-IsStarts =
    segment 8 page refl (omega arith) (omega arith) refl refl refl links-IsPages starts_end

links_apart : AreApart links 0x4000 60
links_apart = (inr (omega arith), (inr (omega arith), tt))

payload-HoldsNoStream : HoldsNoStream host 0x4000 60
unfolding host
payload-HoldsNoStream = (inr (omega arith), inr (omega arith), inr (omega arith))

fixable-IsPayload : IsPayload host fixable 0 60 0x4000 60 header links
unfolding machine_of
fixable-IsPayload = record {
  large = omega arith;
  header = header-read;
  within = omega arith;
  seg_count = 1;
  counted = one_segment;
  starts = links-IsStarts;
  separate = links-AreSeparate;
  apart = links_apart;
  no_streams = links-AreNoStreams;
  no_stream = payload-HoldsNoStream;
}

dump_chained_fixups-IsPayload_example :
    dump_chained_fixups host 0 60 fixable
    ≡ apply_all host (payload fixable 0) header links (recounted fixable)
dump_chained_fixups-IsPayload_example =
    dump_chained_fixups-IsPayload host 0 60 0x4000 60 header links fixable fixable-IsPayload

dump_chained_fixups-refuses_example :
    dump_chained_fixups host 0 27 fixable ≡ ok tt (recounted fixable)
dump_chained_fixups-refuses_example =
    dump_chained_fixups-refuses host 0 27 header fixable (inl (omega arith))

fixable-WellFormed : WellFormed fixable
unfolding payload_bytes
fixable-WellFormed = record {
  bounded = (machine_of-WellFormed 0x4000 payload_bytes (omega arith)).bounded;
  table = omega arith;
}

first_rebase : chained64_is_bind (rebase_word 0x10 0 2) ≡ false
unfolding chained64_is_bind
first_rebase = refl

dump_chained_fixups-settles_example :
    Ensures
      (λ _ m'.
        read_le 8 m'.mem 0x4040
        ≡ some (u64 (fixable.context.img_addr + chained64_rebase_target (rebase_word 0x10 0 2))))
      (dump_chained_fixups host 0 60 fixable)
dump_chained_fixups-settles_example =
    dump_chained_fixups-settles host 0 60 0x4000 60 0 0x4040 (rebase_word 0x10 0 2) header links
      fixable fixable-WellFormed fixable-IsPayload refl first_rebase
