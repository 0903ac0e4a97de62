-- ===== src/Symbols/Entry.antt =====
-- The search for `_main` (main.c): which symbol of the table gives the entry point.
use maloader.Common.{
  ℕ, zero, suc, ◌+◌, ◌*◌, ◌≡◌, refl, ◌∙◌, some, none, Option, Option-cases, Bool-cases, inl, inr,
  ◌==◌, arith, true, false, Bool, List, [], ◌∷◌, if◌then◌else◌,
}
use maloader.Machine.Stores.{load8-mapped}
use maloader.Machine.{
  Mem, load8, MachContext, Machine, ok, reads, strcmp_at, u64, sub64, ◌>>=◌, when◌then◌else◌,
}
use maloader.Formats.Tables.{SymtabCommand, Nlist64, read_nlist_64, sizeof_nlist_64}
use maloader.Symbols.{main_symbol, symbol_at, symbols_64}

-- Whether a symbol is named `_main`, and its value.
abbrev pub Found : Type 0
Found = Bool × ℕ

-- Whether the text at `p` is `text`; the bytes behind the first difference may be missing.
unfoldable pub text_at : Mem → ℕ → List ℕ → Option Bool
text_at mem p [] = elim (mem p) [ none ↦ none | some b ↦ some (b == 0) ]
text_at mem p (c ∷ text) = elim (mem p) [
  | none ↦ none
  | some b ↦ if b == c then text_at mem (p + 1) text else some false
]

strcmp_at-text_at :
    (text : List ℕ) (p : ℕ) (m : Machine) {b : Bool}
    → text_at m.mem p text ≡ some b
    → strcmp_at p text m ≡ ok b m
unfolding text_at strcmp_at ◌>>=◌ load8
strcmp_at-text_at [] p m e = elim (Option-cases (m.mem p)) [
  | inl x ↦ absurd (ground arith)
  | inr (c, x) ↦ ground (arith, x)
]
strcmp_at-text_at (c ∷ text) p m e = elim (Option-cases (m.mem p)) [
  | inl x ↦ absurd (ground arith)
  | inr (d, x) ↦ elim (Bool-cases (d == c)) [
    | inl y ↦
        rw (load8-mapped m p x) (rw y (strcmp_at-text_at text (p + 1) m (ground (arith, x, y, e))))
    | inr y ↦ rw (load8-mapped m p x) (rw y (ground (arith, x, y, e)))
  ]
]

-- `found` are the `rounds` symbols of the table from index `i` on.
pub data HasSymbols (mem : Mem) (memblock : ℕ) (symtab : SymtabCommand)
    : (rounds i : ℕ) → List Found → Type 0 where
  done : {i : ℕ} → HasSymbols mem memblock symtab 0 i []
  symbol :
      {rounds i : ℕ} {found : List Found} (nlist : Nlist64) (is_main : Bool)
      → read_nlist_64 mem (u64 (memblock + symtab.symoff + sizeof_nlist_64 * i)) ≡ some nlist
      → text_at mem (u64 (memblock + symtab.stroff + nlist.n_strx)) main_symbol ≡ some is_main
      → HasSymbols mem memblock symtab rounds (i + 1) found
      → HasSymbols mem memblock symtab (suc rounds) i ((is_main, nlist.n_value) ∷ found)

-- Where a value lies in the image.
abbrev pub relocated : MachContext → ℕ → ℕ
relocated c value = u64 (sub64 value c.v_addr + c.img_addr)

-- The entry point behind the symbols: where the last `_main` lies in the image, or what it was.
unfoldable pub entry_of : MachContext → List Found → ℕ → ℕ
entry_of c [] entry = entry
entry_of c ((is_main, value) ∷ found) entry =
    entry_of c found (if is_main then relocated c value else entry)

abbrev pub with_entry : Machine → ℕ → Machine
with_entry m entry = record m { context = record m.context { entry_point = entry } }

symbol_at-entry :
    (m : Machine) (sym value : ℕ) (is_main : Bool)
    → text_at m.mem sym main_symbol ≡ some is_main
    → symbol_at sym value m
      ≡ ok tt (with_entry m (if is_main then relocated m.context value else m.context.entry_point))
unfolding symbol_at ◌>>=◌
symbol_at-entry m sym value true named = rw (strcmp_at-text_at main_symbol sym m named) refl
symbol_at-entry m sym value false named = rw (strcmp_at-text_at main_symbol sym m named) refl

symbols_64-suc :
    (symtab : SymtabCommand) (rounds i : ℕ) (m : Machine) {m' : Machine} {nlist : Nlist64}
    → read_nlist_64 m.mem (u64 (m.context.memblock + symtab.symoff + sizeof_nlist_64 * i))
      ≡ some nlist
    → symbol_at (u64 (m.context.memblock + symtab.stroff + nlist.n_strx)) nlist.n_value m ≡ ok tt m'
    → symbols_64 symtab (suc rounds) i m ≡ symbols_64 symtab rounds (i + 1) m'
unfolding symbols_64 ◌>>=◌
symbols_64-suc symtab rounds i m read ran = rw (reads, read) (rw ran refl)

-- Where the table and its names can be read, the symbols set the entry point to where the last
-- symbol named `_main` lies in the image, leave it where none is, and change nothing else.
pub symbols_64-HasSymbols :
    (symtab : SymtabCommand) (rounds i : ℕ) (found : List Found) (m : Machine)
    → HasSymbols m.mem m.context.memblock symtab rounds i found
    → symbols_64 symtab rounds i m
      ≡ ok tt (with_entry m (entry_of m.context found m.context.entry_point))
unfolding symbols_64 entry_of ◌>>=◌
symbols_64-HasSymbols symtab zero i all m done = refl
symbols_64-HasSymbols symtab (suc rounds) i all m (symbol {found} nlist is_main read named rest) =
    symbols_64-suc symtab rounds i m read (symbol_at-entry m _ nlist.n_value is_main named)
    ∙ symbols_64-HasSymbols symtab rounds (i + 1) found
        (with_entry m
          (if is_main then relocated m.context nlist.n_value else m.context.entry_point))
        rest
