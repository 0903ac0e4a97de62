-- ===== src/Symbols.antt =====
-- The symbol table (main.c): the LC_SYMTAB branches of loader_64 and loader, which find `_main`.

pub mod Evolution
pub mod Entry
use maloader.Common.{ℕ, zero, suc, ◌+◌, ◌*◌, if◌then◌else◌, codes, List}
use maloader.Machine.{
  when◌then◌else◌, Cmd, unit, ◌>>=◌, reads, get_context, set_context, strcmp_at, u64, sub64,
}
use maloader.Formats.Tables.{
  SymtabCommand, read_nlist, read_nlist_64, sizeof_nlist, sizeof_nlist_64,
}

abbrev pub main_symbol : List ℕ
main_symbol = codes "_main"

-- `entry_point = n_value - v_addr + img_addr` for each symbol named `_main`.
unfoldable pub symbol_at : (symbol n_value : ℕ) → Cmd (Unit {0})
unfolding strcmp_at
symbol_at symbol n_value = do
  is_main ← strcmp_at symbol main_symbol
  when is_main
      then (set_context λ c. record c { entry_point = u64 (sub64 n_value c.v_addr + c.img_addr) })
      else unit

unfoldable pub symbols_64 : SymtabCommand → (rounds c_sym : ℕ) → Cmd (Unit {0})
unfolding symbol_at
symbols_64 symtab zero c_sym = unit
symbols_64 symtab (suc rounds) c_sym = do
  c ← get_context
  nlist ←
      reads λ mem. read_nlist_64 mem (u64 (c.memblock + symtab.symoff + sizeof_nlist_64 * c_sym))
  _ ← symbol_at (u64 (c.memblock + symtab.stroff + nlist.n_strx)) nlist.n_value
  symbols_64 symtab rounds (c_sym + 1)

unfoldable pub symbols : SymtabCommand → (rounds c_sym : ℕ) → Cmd (Unit {0})
unfolding symbol_at
symbols symtab zero c_sym = unit
symbols symtab (suc rounds) c_sym = do
  c ← get_context
  nlist ← reads λ mem. read_nlist mem (u64 (c.memblock + symtab.symoff + sizeof_nlist * c_sym))
  _ ← symbol_at (u64 (c.memblock + symtab.stroff + nlist.n_strx)) nlist.n_value
  symbols symtab rounds (c_sym + 1)
