-- ===== src/Examples/Binding.antt =====
-- The theorems on names, on the resolver and on bind slots at concrete ones.
use maloader.Fixups.Imported.{name_of, apply_entry-import, apply_entry-unknown}
use maloader.Fixups.Fields.{bind_word}
use maloader.Fixups.{apply_entry, sign_extend8}
use maloader.Formats.Fixups.{ChainedFixupsHeader}
use maloader.Common.{
  All, ℕ, ◌+◌, ◌<◌, ◌≡◌, ◌≢◌, ◌⊎◌, refl, List, ◌++◌, some, arith, codes, length, ◌∷◌, [], ◌≤◌, ◌^◌,
  ◌*◌,
}
use maloader.Machine.{Machine, ok, read_le, u64, success, failure, ◌>>=◌, SegmentInfo, read_bytes}
use maloader.Machine.Stores.{with64}
use maloader.Host.{rtld_default}
use maloader.Imports.{
  normalize_macho_symbol_name, libc_name, libm_name, lookup_host, resolve_macho_import_symbol,
  apply_chained_bind,
}
use maloader.Imports.Normalized.{
  Avoids, normalize_macho_symbol_name-Avoids, normalize_macho_symbol_name-stem,
}
use maloader.Imports.Lookup.{
  opened, Knows, IsSilent, lookup_host-order, counted, counted_unresolved,
  apply_chained_bind-outcome,
}
use maloader.Uleb.RoundTrip.{last}
use maloader.Bind.Operations.{
  Instruction, IsInstruction, IsNumber, HasArguments, bytes_of, binds_of, done, set_symbol,
  set_segment_and_offset, do_bind_times_skipping,
}
use maloader.Bind.Programs.{bind_list_retriever-bytes_of}
use maloader.Bind.{bind_list_retriever, bind_start}
use maloader.Bind.Slots.{with_binds}
use maloader.Examples.{host, machine_of}
use maloader.Examples.Files.{zeros}

abbrev puts : List ℕ
puts = codes "puts"

puts-Avoids : Avoids b'$' puts
puts-Avoids = ((λ e. cc), ((λ e. cc), ((λ e. cc), ((λ e. cc), tt))))

normalize_macho_symbol_name-stem_example :
    (normalize_macho_symbol_name (codes "_puts") 256 ≡ puts)
    × (normalize_macho_symbol_name (codes "_puts$UNIX2003") 256 ≡ puts)
normalize_macho_symbol_name-stem_example =
    normalize_macho_symbol_name-stem puts (codes "UNIX2003") 256 puts-Avoids (omega arith)

normalize_macho_symbol_name-Avoids_example :
    Avoids b'$' (normalize_macho_symbol_name (codes "_a$b$c") 4)
    × (length (normalize_macho_symbol_name (codes "_a$b$c") 4) < 4)
normalize_macho_symbol_name-Avoids_example =
    normalize_macho_symbol_name-Avoids (codes "_a$b$c") 4 (omega arith)

-- The name `_puts`, and a word to bind.
abbrev named : Machine
named = machine_of 0x4000 (codes "_puts" ++ zeros 11)

lookup_host-order_example :
    let libc = opened host named.libc_handle libc_name in
    let libm = opened host named.libm_handle libm_name in
    let both = record named { libc_handle = libc; libm_handle = libm } in
    (Knows host libc puts
      × (lookup_host host puts named
          ≡ ok (host.dlsym libc puts) (record named { libc_handle = libc })))
    ⊎ ((IsSilent host libc puts
          × Knows host libm puts
          × (lookup_host host puts named ≡ ok (host.dlsym libm puts) both))
        ⊎ (IsSilent host libc puts
            × IsSilent host libm puts
            × (lookup_host host puts named ≡ ok (host.dlsym rtld_default puts) both)))
lookup_host-order_example = lookup_host-order host puts named

abbrev puts_address : ℕ
puts_address = 0x5004

abbrev asked : Machine
asked = record named { libc_handle = 7 }

answered : resolve_macho_import_symbol host 0x4000 named ≡ ok puts_address asked
unfolding machine_of host resolve_macho_import_symbol ◌>>=◌
answered = refl

word_there : read_le 8 asked.mem 0x4008 ≡ some 0
unfolding machine_of read_le
word_there = refl

apply_chained_bind-outcome_example :
    ((puts_address ≡ 0)
      × (apply_chained_bind host 0x4008 0x4000 3 named ≡ ok failure (counted_unresolved asked)))
    ⊎ ((puts_address ≢ 0)
        × (apply_chained_bind host 0x4008 0x4000 3 named
            ≡ ok success (with64 (counted asked) 0x4008 (u64 (puts_address + 3)))))
apply_chained_bind-outcome_example =
    apply_chained_bind-outcome host 0x4008 0x4000 3 puts_address 0 named asked answered word_there

-- `_puts` bound in the second word of the first segment, and in the one behind the next.
abbrev program : List Instruction
program =
    record {
      operation = set_symbol (codes "_puts");
      immediate = 0;
      arguments = codes "_puts" ++ 0 ∷ [];
    }
    ∷ record { operation = set_segment_and_offset 8; immediate = 0; arguments = 8 ∷ [] }
    ∷ record { operation = do_bind_times_skipping 2 8; immediate = 0; arguments = 2 ∷ 8 ∷ [] }
    ∷ record { operation = done; immediate = 0; arguments = [] }
    ∷ []

abbrev data_info : SegmentInfo
data_info = record {
  segname = codes "__DATA";
  vmaddr = 0x4000;
  vmsize = 0x1000;
  mapped_addr = 0x104000;
}

unfoldable programmed : Machine
unfolding bytes_of machine_of
programmed =
    let m = machine_of 0x5000 (bytes_of program) in
    record m { context = record m.context { segments = data_info ∷ [] } }

small-IsNumber : (n : ℕ) → n < 128 → IsNumber n (n ∷ [])
small-IsNumber n small = (last small, omega arith, omega arith)

program-good : All IsInstruction program
unfolding HasArguments
program-good = (
  (omega arith, (((λ e. cc), ((λ e. cc), ((λ e. cc), ((λ e. cc), ((λ e. cc), tt))))), refl)),
  (
    (omega arith, small-IsNumber 8 (omega arith)),
    (
      (
        omega arith,
        (2 ∷ [], 8 ∷ [], small-IsNumber 2 (omega arith), small-IsNumber 8 (omega arith), refl),
      ),
      ((omega arith, refl), tt),
    ),
  ),
)

program-stored :
    read_bytes programmed.mem 0x5000 (length (bytes_of program)) ≡ some (bytes_of program)
unfolding programmed read_bytes
program-stored = refl

program-fits : 0x5000 + length (bytes_of program) ≤ 2 ^ 64
unfolding bytes_of
program-fits = omega arith

-- The two binds, at the addresses that they have in memory.
program-binds :
    binds_of programmed.context.segments program (bind_start 0x5000)
    ≡ record { func_name = 0x5001; address = 0x104008 }
      ∷ record { func_name = 0x5001; address = 0x104018 }
      ∷ []
unfolding programmed binds_of
program-binds = refl

bind_list_retriever-bytes_of_example :
    bind_list_retriever 0x5000 (0x5000 + length (bytes_of program)) programmed
    ≡ ok tt
        (with_binds programmed (binds_of programmed.context.segments program (bind_start 0x5000)))
bind_list_retriever-bytes_of_example =
    bind_list_retriever-bytes_of program 0x5000 programmed program-good program-fits program-stored

-- An imports table with one entry, for the name at 0x4000, and the word at 0x4008 in a chain.
abbrev imports : ChainedFixupsHeader
imports = record {
  fixups_version = 0;
  starts_offset = 0;
  imports_offset = 12;
  symbols_offset = 0;
  imports_count = 1;
  imports_format = 1;
  symbols_format = 0;
}

name_there : name_of host 0x4000 imports 0x4008 0 3 0 0 ≢ 0
name_there e = cc

import_there : read_le 4 named.mem (u64 (0x4000 + imports.imports_offset + 4 * 0)) ≡ some 0
unfolding machine_of read_le
import_there = refl

puts-there : puts_address ≢ 0
puts-there e = cc

apply_entry-import_example :
    apply_entry host 0x4000 imports 0x4008 (bind_word 0 3 0) named
    ≡ ok tt (with64 (counted asked) 0x4008 (u64 (puts_address + sign_extend8 3)))
apply_entry-import_example =
    apply_entry-import host 0x4000 imports 0x4008 0 3 0 0 puts_address 0 named asked (omega arith)
      (omega arith) (omega arith) (omega arith) import_there name_there answered puts-there
      word_there

apply_entry-unknown_example :
    apply_entry host 0x4000 imports 0x4008 (bind_word 5 3 0) named
    ≡ ok tt (counted_unresolved named)
apply_entry-unknown_example =
    apply_entry-unknown host 0x4000 imports 0x4008 5 3 0 named (omega arith) (omega arith)
      (omega arith) (omega arith)
