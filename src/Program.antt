-- ===== src/Program.antt =====
-- The program (main.c): openExec, determineBit and main, up to the call of the entry point.
pub mod Outcome
pub mod Ending
use maloader.Common.{
  ℕ, ◌+◌, ◌-◌, ◌/◌, ◌==◌, if◌then◌else◌, not, ◌||◌, Option, none, some, List, [], ◌∷◌, ◌++◌, ◌^◌,
}
use maloader.Machine.{
  when◌then◌else◌, undefined, exit_failure, MachContext, Cmd, pure, ◌>>=◌, ◌>>◌, reads, get_context,
  set_context, load64, read_le, c_string, Status, success, failure, u32,
}
use maloader.Formats.Header.{mh_magic, mh_magic_64}
use maloader.Host.{Host}
use maloader.Bind.{do_bind}
use maloader.Loader.{loader, loader_64}

-- The address of the mapped file, or `exit(-1)`.
unfoldable pub open_exec : Host → (filename : List ℕ) → Cmd ℕ
open_exec h filename = elim (h.map_file filename) [
  | none ↦ exit_failure
  | some memblock ↦ pure memblock
]

unfoldable pub determine_bit : (mach_header : ℕ) → Cmd ℕ
unfolding read_le
determine_bit mach_header = do
  magic ← reads λ mem. read_le 4 mem mach_header
  when magic == mh_magic then pure 32 else when magic == mh_magic_64 then pure 64 else exit_failure

-- What main prints on stderr before it goes on.
pub data Diagnostic : Type 0 where
  loader_failed no_mapping no_entry_point : Diagnostic
  unresolved_binds : ℕ → Diagnostic

unfoldable pub loader_diagnostic : Status → List Diagnostic
loader_diagnostic success = []
loader_diagnostic failure = loader_failed ∷ []

unfoldable pub diagnostics : Status → MachContext → List Diagnostic
unfolding loader_diagnostic
diagnostics result c =
    loader_diagnostic result
    ++ (if c.img_addr == 0 || c.v_addr == 0 then no_mapping ∷ [] else [])
    ++ (if c.entry_point == 0 then no_entry_point ∷ [] else [])
    ++ (if not (c.chained_unresolved_bind_count == 0)
        then unresolved_binds c.chained_unresolved_bind_count ∷ []
        else [])

-- The call of the entry point, with what was printed before it. A call of NULL is a fault.
pub record Handoff : Type 0 where
  pub entry_point : ℕ
  pub argc : ℕ
  pub argv : ℕ
  pub printed : List Diagnostic

-- `c = {0}`, with the arguments behind the program's own name. `argc` is an int as a pattern of 32
-- bits.
abbrev pub initial_context : (argc argv : ℕ) → MachContext
initial_context argc argv = record {
  memblock = 0;
  ptr = 0;
  img_addr = 0;
  v_addr = 0;
  entry_point = 0;
  b_list = [];
  d_list = [];
  segments = [];
  chained_rebase_count = 0;
  chained_bind_count = 0;
  chained_unresolved_bind_count = 0;
  argc = u32 (argc + (2 ^ 32 - 1));
  argv = argv + 8;
  bit = 0;
}

-- `l[bit >> 6](context)`
unfoldable pub run_loader : Host → Cmd Status
unfolding loader loader_64
run_loader h = do c ← get_context; when c.bit / 64 == 0 then loader h else loader_64 h

unfoldable pub enter : List Diagnostic → Cmd (Option Handoff)
enter printed = do
  c ← get_context
  let handoff : Handoff = record {
    entry_point = c.entry_point;
    argc = c.argc;
    argv = c.argv;
    printed = printed;
  }
  when c.entry_point == 0 then undefined else pure (some handoff)

-- The part of main behind the reading of its arguments.
unfoldable pub load_program : Host → (filename : List ℕ) → Cmd (Option Handoff)
unfolding open_exec determine_bit run_loader do_bind enter diagnostics
load_program h filename = do
  memblock ← open_exec h filename
  set_context λ c. record c { memblock = memblock }
  bit ← determine_bit memblock
  set_context λ c. record c { bit = bit }
  result ← run_loader h
  c ← get_context
  do_bind h
  enter (diagnostics result c)

-- `none` is the return of -1 where no file is named.
unfoldable pub main : Host → (argc argv : ℕ) → Cmd (Option Handoff)
unfolding load_program load64 c_string
main h argc argv = do
  arg ← load64 (argv + 8)
  when arg == 0 then pure none else (do
    filename ← c_string arg
    set_context λ _. initial_context argc argv
    load_program h filename)
