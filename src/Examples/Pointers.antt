-- ===== src/Examples/Pointers.antt =====
-- The theorems on chained pointers at concrete words and chains.
use maloader.Common.{◌+◌, ◌^◌, ◌<◌, ◌≡◌, refl, [], ◌∷◌, ◌++◌, some, arith, true, false}
use maloader.Machine.{Machine, ok, u64, read_le, le_bytes}
use maloader.Formats.Fixups.{ChainedFixupsHeader}
use maloader.Fixups.{
  chained64_bind_ordinal, chained64_bind_addend, chained64_rebase_target, chained64_next,
  chained64_is_bind, walk_chain,
}
use maloader.Fixups.Fields.{rebase_word, bind_word, rebase_word-decode, bind_word-decode}
use maloader.Fixups.Chain.{IsRebaseChain, last, more, walk_chain-entries}
use maloader.Examples.{host, machine_of}

rebase_word-decode_example :
    (chained64_is_bind (rebase_word 0x1234 5 2) ≡ false)
    × (chained64_rebase_target (rebase_word 0x1234 5 2) ≡ 0x1234)
    × (chained64_next (rebase_word 0x1234 5 2) ≡ 2)
rebase_word-decode_example = rebase_word-decode 0x1234 5 2 (omega arith) (omega arith) (omega arith)

bind_word-decode_example :
    (chained64_is_bind (bind_word 7 255 4) ≡ true)
    × (chained64_bind_ordinal (bind_word 7 255 4) ≡ 7)
    × (chained64_bind_addend (bind_word 7 255 4) ≡ 255)
    × (chained64_next (bind_word 7 255 4) ≡ 4)
bind_word-decode_example = bind_word-decode 7 255 4 (omega arith) (omega arith) (omega arith)

abbrev hdr : ChainedFixupsHeader
hdr = record {
  fixups_version = 0;
  starts_offset = 32;
  imports_offset = 64;
  symbols_offset = 64;
  imports_count = 0;
  imports_format = 1;
  symbols_format = 0;
}

-- Two pointers, the second directly behind the first.
abbrev chained : Machine
chained = machine_of 0x2000 (le_bytes 8 (rebase_word 0x10 0 2) ++ le_bytes 8 (rebase_word 0x20 0 0))

two_links : IsRebaseChain chained.mem 0x2000 ((0x2000, 0x10) ∷ (0x2008, 0x20) ∷ [])
unfolding machine_of read_le le_bytes chained64_is_bind chained64_rebase_target chained64_next
two_links =
    more (rebase_word 0x10 0 2) refl refl (omega arith) (omega arith)
      (last (rebase_word 0x20 0 0) refl refl refl)

uncounted : chained.context.chained_rebase_count < 2 ^ 32
unfolding machine_of
uncounted = omega arith

walk_chain-entries_example :
    (m' : Machine) × (walk_chain host 0 hdr 512 0x2000 chained ≡ ok tt m')
    × (read_le 8 m'.mem 0x2008 ≡ some (u64 (chained.context.img_addr + 0x20)))
walk_chain-entries_example =
    walk_chain-entries host 0 hdr 512 1 0x2000 0x2008 0x20 ((0x2000, 0x10) ∷ (0x2008, 0x20) ∷ [])
      chained uncounted two_links (omega arith) refl
