-- ===== src/Examples/Loading.antt =====
-- Runs of the loader, and the loader's theorems at them.
use maloader.Program.Ending.{load_program-ends, main-HandsOver, HandsOver}
use maloader.Common.{◌+◌, ◌≡◌, ◌≢◌, ◌⊎◌, refl, [], ◌∷◌, some, none, Option, arith, true, ℕ}
use maloader.Machine.{
  Machine, Run, ok, fault, exited, out_of_fuel, success, failure, ◌>>=◌, u64, read_le,
}
use maloader.Machine.Evolves.{WellFormed}
use maloader.Machine.Runs.{Ensures}
use maloader.Formats.Header.{MachHeader64, read_mach_header_64, mh_execute}
use maloader.Formats.Commands.{read_segment_command_64}
use maloader.Formats.Tables.{Nlist64, SymtabCommand, read_symtab_command, read_nlist_64}
use maloader.Symbols.{symbols_64}
use maloader.Symbols.Entry.{
  HasSymbols, done, symbol, entry_of, with_entry, text_at, symbols_64-HasSymbols,
}
use maloader.Loader.{loader_64, pass_segment_64}
use maloader.Loader.Invariant.{Remains, loader_64-Remains}
use maloader.Loader.Outcome.{with_ptr, loader_64-status, pass_segment_64-passes}
use maloader.Bind.{do_bind}
use maloader.Bind.Guards.{do_bind-spares}
use maloader.Program.{Handoff, load_program, main}
use maloader.Program.Outcome.{IsReady}
use maloader.Examples.{host, host-MapsFresh, machine_of, machine_of-WellFormed}
use maloader.Examples.Files.{symbol_file, started_bytes}

-- The result of a run and its machine, or the values given.
abbrev result_of : {A : Type 0} → A → Run A → A
result_of a (ok b m) = b
result_of a fault = a
result_of a exited = a
result_of a out_of_fuel = a

abbrev final : {A : Type 0} → Machine → Run A → Machine
final m (ok b m') = m'
final m fault = m
final m exited = m
final m out_of_fuel = m

abbrev loaded : Machine
loaded = machine_of 0x1000 symbol_file

-- The file with a vector of arguments below it, which names the file `a`.
abbrev started : Machine
started = machine_of 0xFE0 started_bytes

abbrev name : ℕ
name = 0xFF0

abbrev whole_run : Run (Option Handoff)
whole_run = load_program host [] loaded

-- The entry point of the file's `_main`.
entry_found : (final loaded whole_run).context.entry_point ≡ 0x1234
unfolding load_program host machine_of symbol_file ◌>>=◌ read_mach_header_64 read_segment_command_64
    read_symtab_command read_nlist_64
entry_found = refl

whole_run-returns :
    load_program host [] loaded ≡ ok (result_of none whole_run) (final loaded whole_run)
unfolding load_program host machine_of symbol_file ◌>>=◌ read_mach_header_64 read_segment_command_64
    read_symtab_command read_nlist_64
whole_run-returns = refl

loaded-WellFormed : WellFormed loaded
unfolding symbol_file
loaded-WellFormed = machine_of-WellFormed 0x1000 symbol_file (omega arith)

first_byte : loaded.mem 0x1000 ≢ none
unfolding machine_of symbol_file
first_byte e = cc

loader_64-Remains_example : Ensures (λ _ m'. Remains loaded 0x1000 m') (loader_64 host loaded)
loader_64-Remains_example =
    loader_64-Remains host loaded 0x1000 loaded-WellFormed first_byte host-MapsFresh

do_bind-spares_example : Ensures (λ _ m'. m'.mem 0 ≡ loaded.mem 0) (do_bind host loaded)
do_bind-spares_example = do_bind-spares host loaded 0 loaded-WellFormed (omega arith)

-- The header of the file, as it is read.
abbrev header : MachHeader64
header = record {
  magic = 0xFEEDFACF;
  cputype = 0x01000007;
  cpusubtype = 3;
  filetype = 2;
  ncmds = 1;
  sizeofcmds = 24;
  flags = 0;
  reserved = 0;
}

header-read : read_mach_header_64 loaded.mem loaded.context.memblock ≡ some header
unfolding machine_of symbol_file read_mach_header_64
header-read = refl

loader_64-status_example :
    Ensures
      (λ status _.
        ((status ≡ success) × (header.filetype ≡ mh_execute))
        ⊎ ((status ≡ failure) × (header.filetype ≢ mh_execute)))
      (loader_64 host loaded)
loader_64-status_example =
    loader_64-status host loaded header host-MapsFresh loaded-WellFormed header-read

pass_segment_64-passes_example :
    Ensures
      (λ _ m'. m' ≡ with_ptr loaded (u64 (loaded.context.ptr + 232)))
      (pass_segment_64 2 232 loaded)
pass_segment_64-passes_example = pass_segment_64-passes 2 232 loaded refl (omega arith)

abbrev symtab : SymtabCommand
symtab = record { cmd = 2; cmdsize = 24; symoff = 56; nsyms = 1; stroff = 72; strsize = 8 }

abbrev entry : Nlist64
entry = record { n_strx = 0; n_type = 0; n_sect = 0; n_desc = 0; n_value = 0x1234 }

one_main : HasSymbols loaded.mem loaded.context.memblock symtab 1 0 ((true, 0x1234) ∷ [])
unfolding machine_of symbol_file read_nlist_64 text_at
one_main = symbol entry true refl refl done

symbols_64-HasSymbols_example :
    symbols_64 symtab 1 0 loaded
    ≡ ok tt (
        with_entry loaded
          (entry_of loaded.context ((true, 0x1234) ∷ []) loaded.context.entry_point))
symbols_64-HasSymbols_example =
    symbols_64-HasSymbols symtab 1 0 ((true, 0x1234) ∷ []) loaded one_main

load_program-ends_example : Ensures IsReady (load_program host [] loaded)
load_program-ends_example = load_program-ends host host-MapsFresh [] loaded loaded-WellFormed

started-WellFormed : WellFormed started
unfolding started_bytes
started-WellFormed = machine_of-WellFormed 0xFE0 started_bytes (omega arith)

file_named : read_le 8 started.mem (0xFE0 + 8) ≡ some name
unfolding machine_of started_bytes symbol_file read_le
file_named = refl

main-HandsOver_example :
    Ensures
      (λ o m'. ((name ≡ 0) × (o ≡ none)) ⊎ ((name ≢ 0) × HandsOver 2 0xFE0 o m'))
      (main host 2 0xFE0 started)
main-HandsOver_example =
    main-HandsOver host 2 0xFE0 name started host-MapsFresh started-WellFormed file_named

-- The program as a whole hands over at the file's `_main`.
started_entry : (final started (main host 2 0xFE0 started)).context.entry_point ≡ 0x1234
unfolding main host machine_of started_bytes symbol_file ◌>>=◌ read_mach_header_64
    read_segment_command_64 read_symtab_command read_nlist_64
started_entry = refl
