-- ===== src/Symbols/Evolution.antt =====
-- Reading the symbol table keeps the machine.
use maloader.Common.{ℕ, zero, suc, ◌+◌, refl}
use maloader.Machine.{MachContext, set_context}
use maloader.Machine.Evolves.{
  Extends-refl, Keeps, Keeps-pure, Keeps-bind, Keeps-when, Keeps-reads, Keeps-get_context,
  Keeps-set_context,
}
use maloader.Machine.Commands.{Keeps-strcmp_at}
use maloader.Formats.Tables.{SymtabCommand}
use maloader.Symbols.{main_symbol, symbol_at, symbols, symbols_64}

Keeps-set_entry_point :
    (f : MachContext → ℕ) → Keeps (set_context λ c. record c { entry_point = f c })
Keeps-set_entry_point f =
    Keeps-set_context _
      (λ c. record {
        memblock = refl;
        argc = refl;
        argv = refl;
        bit = refl;
        img_addr = λ _. refl;
        v_addr = λ _. refl;
        segments = Extends-refl _;
        b_list = Extends-refl _;
        d_list = Extends-refl _;
      })
      (λ c h. h)

Keeps-symbol_at : (symbol n_value : ℕ) → Keeps (symbol_at symbol n_value)
unfolding symbol_at
Keeps-symbol_at symbol n_value =
    Keeps-bind (Keeps-strcmp_at main_symbol symbol)
      λ is_main. Keeps-when _ (Keeps-set_entry_point _) (Keeps-pure tt)

pub Keeps-symbols :
    (symtab : SymtabCommand) (rounds c_sym : ℕ) → Keeps (symbols symtab rounds c_sym)
unfolding symbols
Keeps-symbols symtab zero c_sym = Keeps-pure tt
Keeps-symbols symtab (suc rounds) c_sym = Keeps-bind Keeps-get_context λ c.
    Keeps-bind (Keeps-reads _)
      λ nlist. Keeps-bind (Keeps-symbol_at _ _) λ _. Keeps-symbols symtab rounds (c_sym + 1)

pub Keeps-symbols_64 :
    (symtab : SymtabCommand) (rounds c_sym : ℕ) → Keeps (symbols_64 symtab rounds c_sym)
unfolding symbols_64
Keeps-symbols_64 symtab zero c_sym = Keeps-pure tt
Keeps-symbols_64 symtab (suc rounds) c_sym = Keeps-bind Keeps-get_context λ c.
    Keeps-bind (Keeps-reads _)
      λ nlist. Keeps-bind (Keeps-symbol_at _ _) λ _. Keeps-symbols_64 symtab rounds (c_sym + 1)
