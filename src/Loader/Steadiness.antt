-- ===== src/Loader/Steadiness.antt =====
-- The load commands that carry no segment and no chained fixups (main.c) write no memory.
use maloader.Common.{ℕ, zero, suc, ◌+◌, ◌≢◌, refl, eq_of_==}
use maloader.Machine.Steady.{
  Steady, Steady-pure, Steady-bind, Steady-when, Steady-undefined, Steady-out_of_fuel,
  Steady-set_context, Steady-get_context, Steady-reads, Steady-load8, Steady-strcmp_at,
  Steady-when_test, steady,
}
use maloader.Host.{Host}
use maloader.Formats.Commands.{lc_dyld_chained_fixups}
use maloader.Formats.Tables.{SymtabCommand}
use maloader.Uleb.{uleb_loop, read_uleb128}
use maloader.Bind.{
  BindState, append_bind_info, do_bind_slot, bind_times, uleb_argument, run_opcode, bind_step,
  bind_loop, bind_list_retriever, dylib_list_retriever,
}
use maloader.Symbols.{main_symbol, symbol_at, symbols_64}
use maloader.Loader.{load_dyld_info, load_dylib, load_dysymtab, load_exports_trie, run_command_64}

Steady-uleb_loop : (fuel p end result bit : ℕ) → Steady (uleb_loop fuel p end result bit)
unfolding uleb_loop
Steady-uleb_loop zero p end result bit = Steady-out_of_fuel
Steady-uleb_loop (suc fuel) p end result bit =
    Steady-when _
      (Steady-bind (Steady-load8 p) λ byte.
        Steady-when _ Steady-undefined
          (Steady-when _ (Steady-pure _) (Steady-uleb_loop fuel (p + 1) end _ _)))
      (Steady-pure _)

Steady-uleb_argument : (end : ℕ) (s : BindState) → Steady (uleb_argument end s)
unfolding uleb_argument read_uleb128
Steady-uleb_argument end s = Steady-bind (Steady-uleb_loop _ s.p end 0 0) λ r. Steady-pure _

Steady-do_bind_slot : (s : BindState) → Steady (do_bind_slot s)
unfolding do_bind_slot append_bind_info
Steady-do_bind_slot s = Steady-set_context _ (λ c. (refl, refl, refl, refl))

Steady-bind_times : (count skip : ℕ) (s : BindState) → Steady (bind_times count skip s)
unfolding bind_times
Steady-bind_times zero skip s = Steady-pure s
Steady-bind_times (suc count) skip s =
    Steady-bind (Steady-do_bind_slot s) λ _. Steady-bind_times count skip _

Steady-run_opcode :
    (end opcode immediate : ℕ) (s : BindState) → Steady (run_opcode end opcode immediate s)
unfolding run_opcode
Steady-run_opcode end opcode immediate s =
    search (steady, Steady-uleb_argument, Steady-do_bind_slot, Steady-bind_times) depth 24

Steady-bind_loop : (fuel end : ℕ) (s : BindState) → Steady (bind_loop fuel end s)
unfolding bind_loop bind_step
Steady-bind_loop zero end s = Steady-out_of_fuel
Steady-bind_loop (suc fuel) end s =
    Steady-when _
      (Steady-bind (Steady-bind (Steady-load8 s.p) λ byte. Steady-run_opcode end _ _ _)
        λ s'. Steady-bind_loop fuel end s')
      (Steady-pure tt)

Steady-bind_list_retriever : (start end : ℕ) → Steady (bind_list_retriever start end)
unfolding bind_list_retriever
Steady-bind_list_retriever start end = Steady-bind_loop _ end _

Steady-load_dyld_info : Steady load_dyld_info
unfolding load_dyld_info
Steady-load_dyld_info = search (steady, Steady-bind_list_retriever) depth 9

Steady-symbol_at : (symbol n_value : ℕ) → Steady (symbol_at symbol n_value)
unfolding symbol_at
Steady-symbol_at symbol n_value =
    Steady-bind (Steady-strcmp_at main_symbol symbol) λ is_main.
      Steady-when _ (Steady-set_context _ (λ c. (refl, refl, refl, refl))) (Steady-pure tt)

Steady-symbols_64 :
    (symtab : SymtabCommand) (rounds c_sym : ℕ) → Steady (symbols_64 symtab rounds c_sym)
unfolding symbols_64
Steady-symbols_64 symtab zero c_sym = Steady-pure tt
Steady-symbols_64 symtab (suc rounds) c_sym = Steady-bind Steady-get_context λ c.
    Steady-bind (Steady-reads _)
      λ nlist. Steady-bind (Steady-symbol_at _ _) λ _. Steady-symbols_64 symtab rounds (c_sym + 1)

Steady-load_dylib : Steady load_dylib
unfolding load_dylib dylib_list_retriever
Steady-load_dylib =
    Steady-bind Steady-get_context
      λ c. Steady-bind (Steady-reads _) λ lib. Steady-set_context _ (λ c. (refl, refl, refl, refl))

Steady-load_dysymtab : Steady load_dysymtab
unfolding load_dysymtab
Steady-load_dysymtab = search steady depth 9

Steady-load_exports_trie : Steady load_exports_trie
unfolding load_exports_trie
Steady-load_exports_trie = search steady depth 9

-- Every other command but LC_DYLD_CHAINED_FIXUPS.
pub Steady-run_command_64 :
    (h : Host) (cmd : ℕ) → cmd ≢ lc_dyld_chained_fixups → Steady (run_command_64 h cmd)
unfolding run_command_64
Steady-run_command_64 h cmd no_fixups = Steady-when _ Steady-load_dyld_info (
    Steady-when _ (search (steady, Steady-symbols_64) depth 9) (
      Steady-when _ Steady-load_dysymtab (
        Steady-when _ Steady-load_dylib (
          Steady-when_test _ (λ fixups. absurd (no_fixups (eq_of_== _ _ fixups)))
            (λ _. Steady-when _ Steady-load_exports_trie (Steady-pure tt))))))
