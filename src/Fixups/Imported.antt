-- ===== src/Fixups/Imported.antt =====
-- A bind of a chain (main.c, dump_chained_64_offset_entries), from the pointer's fields to the store.
use maloader.Common.{
  ℕ, ◌+◌, ◌*◌, ◌/◌, ◌^◌, ◌≤◌, ◌<◌, ◌≡◌, ◌≢◌, refl, some, ==-of_ne, le→leb, lt→not-leb,
}
use maloader.Machine.{Machine, ok, reads, read_le, u64, ◌>>=◌, Cmd, Status, unit}
use maloader.Machine.Stores.{with64}
use maloader.Host.{Host}
use maloader.Formats.Fixups.{ChainedFixupsHeader}
use maloader.Imports.{resolve_macho_import_symbol, apply_chained_bind}
use maloader.Imports.Lookup.{counted, counted_unresolved, apply_chained_bind-resolved}
use maloader.Fixups.{sign_extend8, chained_import_name, apply_entry}
use maloader.Fixups.Fields.{bind_word, bind_word-decode}

then_unit :
    (c : Cmd Status) (m : Machine) {status : Status} {m' : Machine}
    → c m ≡ ok status m'
    → (c >>= λ _. unit) m ≡ ok tt m'
unfolding ◌>>=◌
then_unit c m ran = rw ran refl

module _ (h : Host) (base : ℕ) (hdr : ChainedFixupsHeader) (loc ordinal addend next : ℕ) where
  -- A bind whose fields fit, and whose ordinal the imports table does not have, counts as
  -- unresolved and stores nothing.
  pub apply_entry-unknown :
      (m : Machine)
      → ordinal < 2 ^ 24
      → addend < 2 ^ 8
      → next < 2 ^ 12
      → hdr.imports_count ≤ ordinal
      → apply_entry h base hdr loc (bind_word ordinal addend next) m ≡ ok tt (counted_unresolved m)
  unfolding apply_entry chained_import_name ◌>>=◌
  apply_entry-unknown m o a n missing =
      let (is_bind, is_ordinal, _, _) = bind_word-decode ordinal addend next o a n in
      rw is_bind (rw (is_ordinal, le→leb _ _ missing) refl)

  -- The address of the name that an import has.
  abbrev pub name_of : (bits : ℕ) → ℕ
  name_of bits = u64 (base + hdr.symbols_offset + bits / 2 ^ 9)

  -- A bind whose fields fit and whose ordinal the imports table has looks its symbol's name up by
  -- the ordinal. Where the name has an address and the location can be read, the location is set to
  -- that address plus the sign-extended addend, modulo 2 ^ 64, and the bind is counted.
  pub apply_entry-import :
      (bits resolved old : ℕ) (m m' : Machine)
      → ordinal < 2 ^ 24
      → addend < 2 ^ 8
      → next < 2 ^ 12
      → ordinal < hdr.imports_count
      → read_le 4 m.mem (u64 (base + hdr.imports_offset + 4 * ordinal)) ≡ some bits
      → name_of bits ≢ 0
      → resolve_macho_import_symbol h (name_of bits) m ≡ ok resolved m'
      → resolved ≢ 0
      → read_le 8 m'.mem loc ≡ some old
      → apply_entry h base hdr loc (bind_word ordinal addend next) m
        ≡ ok tt (with64 (counted m') loc (u64 (resolved + sign_extend8 addend)))
  unfolding apply_entry chained_import_name ◌>>=◌
  apply_entry-import bits resolved old m m' o a n there import named answered address stored =
      let (is_bind, is_ordinal, is_addend, _) = bind_word-decode ordinal addend next o a n in
      let bound =
        apply_chained_bind-resolved h loc (name_of bits) (sign_extend8 addend) resolved old m m'
          answered stored (==-of_ne resolved 0 address) in
      rw is_bind (
        rw (is_ordinal, is_addend, lt→not-leb _ _ there)
          (rw (import, reads)
            (rw (==-of_ne (name_of bits) 0 named)
              (then_unit (apply_chained_bind h loc (name_of bits) (sign_extend8 addend)) m bound))))
