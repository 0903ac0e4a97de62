-- ===== src/Loader/Termination.antt =====
-- The load commands of a 32-bit file (main.c): loader as a whole ends for every file.
use maloader.Common.{ℕ, zero, suc}
use maloader.Machine.Evolves.{Keeps, Keeps-pure, Keeps-bind, Keeps-get_context, Keeps-reads, keeps}
use maloader.Machine.Commands.{Keeps-set_ptr}
use maloader.Machine.Ends.{Ends, Ends-of_Keeps, Ends-bind, Ends-when}
use maloader.Host.{Host, MapsFresh}
use maloader.Symbols.Evolution.{Keeps-symbols}
use maloader.Segments.Evolution.{Ends-load_segment, Keeps-load_section}
use maloader.Loader.Evolution.{Keeps-load_dyld_info, Keeps-load_dylib, Keeps-load_dysymtab}
use maloader.Loader.{sections, pass_segment, run_command, load_command, load_commands, loader}

Keeps-sections : (rounds : ℕ) → Keeps (sections rounds)
unfolding sections
Keeps-sections zero = Keeps-pure tt
Keeps-sections (suc rounds) =
    Keeps-bind Keeps-load_section
      λ _. Keeps-bind (Keeps-set_ptr _) λ _. Keeps-bind (Keeps-pure tt) λ _. Keeps-sections rounds

Keeps-pass_segment : (n_section cmdsize : ℕ) → Keeps (pass_segment n_section cmdsize)
unfolding pass_segment
Keeps-pass_segment n_section cmdsize = search (keeps, Keeps-sections, Keeps-set_ptr) depth 9

Keeps-run_command : (cmd : ℕ) → Keeps (run_command cmd)
unfolding run_command
Keeps-run_command cmd =
    search (keeps, Keeps-load_dyld_info, Keeps-symbols, Keeps-load_dysymtab, Keeps-load_dylib) depth
      15

module _ (h : Host) (laws : MapsFresh h) where
  Ends-load_command : Ends (load_command h)
  unfolding load_command
  Ends-load_command = Ends-bind (Ends-of_Keeps Keeps-get_context) λ c.
      Ends-bind (Ends-of_Keeps (Keeps-reads _)) λ command.
        Ends-when _
          (Ends-bind (Ends-load_segment h laws)
            λ n_section. Ends-of_Keeps (Keeps-pass_segment n_section _))
          (Ends-of_Keeps (Keeps-bind (Keeps-run_command _) λ _. Keeps-set_ptr _))

  Ends-load_commands : (rounds : ℕ) → Ends (load_commands h rounds)
  unfolding load_commands
  Ends-load_commands zero = Ends-of_Keeps (Keeps-pure tt)
  Ends-load_commands (suc rounds) = Ends-bind Ends-load_command λ _. Ends-load_commands rounds

  pub Ends-loader : Ends (loader h)
  unfolding loader
  Ends-loader = Ends-bind (Ends-of_Keeps (Keeps-set_ptr _)) λ _.
      Ends-bind (Ends-of_Keeps Keeps-get_context) λ c.
        Ends-bind (Ends-of_Keeps (Keeps-reads _)) λ header.
          Ends-when _ (Ends-of_Keeps (Keeps-pure _)) (
            Ends-bind (Ends-of_Keeps (Keeps-set_ptr _)) λ _.
              Ends-bind (Ends-of_Keeps Keeps-get_context) λ c'.
                Ends-bind (Ends-of_Keeps (Keeps-reads _))
                  λ _. Ends-bind (Ends-load_commands _) λ _. Ends-of_Keeps (Keeps-pure _))
