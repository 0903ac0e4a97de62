-- ===== src/Loader/Evolution.antt =====
-- The load commands keep the machine: loader_64 as a whole, for every file.
use maloader.Common.{ℕ, zero, suc}
use maloader.Machine.Evolves.{
  Keeps, Keeps-pure, Keeps-bind, Keeps-when, keeps, Keeps-get_context, Keeps-reads,
}
use maloader.Machine.Commands.{Keeps-set_ptr}
use maloader.Host.{Host, MapsFresh}
use maloader.Symbols.Evolution.{Keeps-symbols_64}
use maloader.Segments.Evolution.{Keeps-load_segment_64, Keeps-load_section_64}
use maloader.Fixups.Evolution.{Keeps-dump_chained_fixups}
use maloader.Bind.Evolution.{Keeps-bind_list_retriever, Keeps-add_dylib}
use maloader.Loader.{
  load_dyld_info, load_dylib, load_dysymtab, load_chained_fixups, load_exports_trie, sections_64,
  pass_segment_64, run_command_64, load_command_64, load_commands_64, loader_64,
}

pub Keeps-load_dyld_info : Keeps load_dyld_info
unfolding load_dyld_info
Keeps-load_dyld_info = search (keeps, Keeps-bind_list_retriever) depth 9

pub Keeps-load_dylib : Keeps load_dylib
unfolding load_dylib
Keeps-load_dylib = search (keeps, Keeps-add_dylib) depth 9

pub Keeps-load_dysymtab : Keeps load_dysymtab
unfolding load_dysymtab
Keeps-load_dysymtab = search keeps depth 9

Keeps-load_exports_trie : Keeps load_exports_trie
unfolding load_exports_trie
Keeps-load_exports_trie = search keeps depth 9

Keeps-sections_64 : (rounds : ℕ) → Keeps (sections_64 rounds)
unfolding sections_64
Keeps-sections_64 zero = Keeps-pure tt
Keeps-sections_64 (suc rounds) =
    Keeps-bind Keeps-load_section_64 λ _.
      Keeps-bind (Keeps-set_ptr _) λ _. Keeps-bind (Keeps-pure tt) λ _. Keeps-sections_64 rounds

Keeps-pass_segment_64 : (n_section cmdsize : ℕ) → Keeps (pass_segment_64 n_section cmdsize)
unfolding pass_segment_64
Keeps-pass_segment_64 n_section cmdsize = search (keeps, Keeps-sections_64, Keeps-set_ptr) depth 9

module _ (h : Host) (laws : MapsFresh h) where
  Keeps-load_chained_fixups : Keeps (load_chained_fixups h)
  unfolding load_chained_fixups
  Keeps-load_chained_fixups = search (keeps, Keeps-dump_chained_fixups) depth 9

  Keeps-run_command_64 : (cmd : ℕ) → Keeps (run_command_64 h cmd)
  unfolding run_command_64
  Keeps-run_command_64 cmd =
      search
        (
          keeps, Keeps-load_dyld_info, Keeps-symbols_64, Keeps-load_dysymtab, Keeps-load_dylib,
          Keeps-load_chained_fixups, Keeps-load_exports_trie,
        )
        depth 19

  Keeps-load_command_64 : Keeps (load_command_64 h)
  unfolding load_command_64
  Keeps-load_command_64 = Keeps-bind Keeps-get_context λ c. Keeps-bind (Keeps-reads _) λ command.
      Keeps-when _
        (Keeps-bind (Keeps-load_segment_64 h laws) λ n_section. Keeps-pass_segment_64 n_section _)
        (Keeps-bind (Keeps-run_command_64 _) λ _. Keeps-set_ptr _)

  pub Keeps-load_commands_64 : (rounds : ℕ) → Keeps (load_commands_64 h rounds)
  unfolding load_commands_64
  Keeps-load_commands_64 zero = Keeps-pure tt
  Keeps-load_commands_64 (suc rounds) =
      Keeps-bind Keeps-load_command_64 λ _. Keeps-load_commands_64 rounds

  pub Keeps-loader_64 : Keeps (loader_64 h)
  unfolding loader_64
  Keeps-loader_64 = search (keeps, Keeps-set_ptr, Keeps-load_commands_64) depth 12
