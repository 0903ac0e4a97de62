-- ===== src/Bind/Libraries.antt =====
-- do_bind (bind.c) over all libraries: what the bind list and the libraries make of the image.
use maloader.Common.{
  ℕ, ◌≡◌, refl, ap, ◌∙◌, Bool-cases, inl, inr, List, [], ◌∷◌, All, ◌==◌, if◌then◌else◌,
}
use maloader.Machine.{Mem, Machine, DylibName, in_file, literal, ok, ◌>>=◌, pure}
use maloader.Machine.Memory.{read_le-of_mapped}
use maloader.Host.{Host}
use maloader.Imports.{skip_underscore}
use maloader.Bind.{bind_symbol, bind_symbols, dylib_text, bind_library, bind_libraries}
use maloader.Bind.Arguments.{c_string-text}
use maloader.Bind.Named.{value_of, bind_symbol-HasText}
use maloader.Bind.Bindable.{
  Named, infos_of, IsSlot, IsBindable, IsNamed, AreNamed, store, All-store, AreNamed-store,
}

abbrev pub with_mem : Machine → Mem → Machine
with_mem m mem = record m { mem = mem }

module _ (h : Host) where
  -- What a library has for the name of an entry.
  abbrev pub found_in : (library : ℕ) → List ℕ → ℕ
  found_in library name = value_of h library (skip_underscore name)

  -- The memory behind one library.
  unfoldable pub bind_one : (library : ℕ) → Named → Mem → Mem
  bind_one library b mem =
      if found_in library b.1 == 0 then mem else store b.0.address (found_in library b.1) mem

  unfoldable pub bind_all : (library : ℕ) → List Named → Mem → Mem
  bind_all library [] mem = mem
  bind_all library (b ∷ bs) mem = bind_all library bs (bind_one library b mem)

  -- The memory behind the libraries of these names.
  unfoldable pub bind_by : List (List ℕ) → List Named → Mem → Mem
  bind_by [] bs mem = mem
  bind_by (text ∷ texts) bs mem =
      bind_by texts bs (if h.dlopen text == 0 then mem else bind_all (h.dlopen text) bs mem)

  bind_symbol-bind_one :
      (library img : ℕ) (bs : List Named) (b : Named) (m : Machine)
      → m.context.img_addr ≡ img
      → IsBindable img bs m.mem b
      → bind_symbol h library b.0 m ≡ ok tt (with_mem m (bind_one library b m.mem))
  unfolding bind_one
  bind_symbol-bind_one library img bs b m at (above, mapped, named, clear) =
      let (old, stored) = read_le-of_mapped 8 m.mem b.0.address mapped in
      bind_symbol-HasText h library old b.0 b.1 m named (rw at above) stored
      ∙ elim (Bool-cases (found_in library b.1 == 0)) [
        | inl null ↦ rw null refl
        | inr there ↦ rw there refl
      ]

  -- A library's round over an entry keeps what holds of every store at a slot.
  bind_one-keeps :
      (P : Mem → Type 0) (library : ℕ) (b : Named) (mem : Mem)
      → ((v : ℕ) → P (store b.0.address v mem))
      → P mem
      → P (bind_one library b mem)
  unfolding bind_one
  bind_one-keeps P library b mem kept p = elim (Bool-cases (found_in library b.1 == 0)) [
    | inl null ↦ rw null p
    | inr there ↦ rw there (kept (found_in library b.1))
  ]

  module _ (img : ℕ) (bs : List Named) where
    abbrev pub Slots : List Named → Type 0
    Slots cs = All (λ c. IsSlot bs c.0.address) cs

    bind_all-keeps :
        (P : Mem → Type 0) (library : ℕ) (cs : List Named) (mem : Mem)
        → ((q v : ℕ) (n : Mem) → IsSlot bs q → P n → P (store q v n))
        → Slots cs
        → P mem
        → P (bind_all library cs mem)
    unfolding bind_all
    bind_all-keeps P library [] mem kept slots p = p
    bind_all-keeps P library (c ∷ cs) mem kept (slot, slots) p =
        bind_all-keeps P library cs (bind_one library c mem) kept slots
          (bind_one-keeps P library c mem (λ v. kept _ v mem slot p) p)

    bind_symbols-bind_all :
        (library : ℕ) (cs : List Named) (m : Machine)
        → m.context.img_addr ≡ img
        → Slots cs
        → All (IsBindable img bs m.mem) cs
        → bind_symbols h library (infos_of cs) m ≡ ok tt (with_mem m (bind_all library cs m.mem))
    unfolding bind_symbols bind_all ◌>>=◌
    bind_symbols-bind_all library [] m at slots bindable = refl
    bind_symbols-bind_all library (c ∷ cs) m at (slot, slots) (this, rest) =
        rw (bind_symbol-bind_one library img bs c m at this) (
          bind_symbols-bind_all library cs (with_mem m (bind_one library c m.mem)) at slots (
            bind_one-keeps (λ n. All (IsBindable img bs n) cs) library c m.mem
              (λ v. All-store img bs c.0.address v slot m.mem cs rest) rest))

    dylib_text-IsNamed :
        (name : DylibName) (text : List ℕ) (m : Machine)
        → IsNamed bs m.mem name text
        → dylib_text name m ≡ ok text m
    unfolding dylib_text
    dylib_text-IsNamed (in_file p) text m ((clean, stored, fits), clear) =
        c_string-text text p m clean stored fits
    dylib_text-IsNamed (literal t) text m same = unfold pure in ap (λ s. ok s m) same

    -- The memory behind a library that is or is not there.
    abbrev behind : List ℕ → Mem → Mem
    behind text mem = if h.dlopen text == 0 then mem else bind_all (h.dlopen text) bs mem

    behind-keeps :
        (P : Mem → Type 0) (text : List ℕ) (mem : Mem)
        → ((q v : ℕ) (n : Mem) → IsSlot bs q → P n → P (store q v n))
        → Slots bs
        → P mem
        → P (behind text mem)
    behind-keeps P text mem kept slots p = elim (Bool-cases (h.dlopen text == 0)) [
      | inl absent ↦ rw absent p
      | inr there ↦ rw there (bind_all-keeps P (h.dlopen text) bs mem kept slots p)
    ]

    bind_library-behind :
        (name : DylibName) (text : List ℕ) (m : Machine)
        → m.context.img_addr ≡ img
        → m.context.b_list ≡ infos_of bs
        → Slots bs
        → All (IsBindable img bs m.mem) bs
        → IsNamed bs m.mem name text
        → bind_library h name m ≡ ok tt (with_mem m (behind text m.mem))
    unfolding bind_library ◌>>=◌
    bind_library-behind name text m at listed slots bindable named =
        rw (dylib_text-IsNamed name text m named) (elim (Bool-cases (h.dlopen text == 0)) [
          | inl absent ↦ rw absent refl
          | inr there ↦ rw there (
              ap (λ l. bind_symbols h (h.dlopen text) l m) listed
              ∙ bind_symbols-bind_all (h.dlopen text) bs m at slots bindable)
        ])

    pub bind_libraries-bind_by :
        (names : List DylibName) (texts : List (List ℕ)) (m : Machine)
        → m.context.img_addr ≡ img
        → m.context.b_list ≡ infos_of bs
        → Slots bs
        → All (IsBindable img bs m.mem) bs
        → AreNamed bs m.mem names texts
        → bind_libraries h names m ≡ ok tt (with_mem m (bind_by texts bs m.mem))
    unfolding bind_libraries bind_by ◌>>=◌
    bind_libraries-bind_by [] [] m at listed slots bindable named = refl
    bind_libraries-bind_by [] (text ∷ texts) m at listed slots bindable named = absurd named
    bind_libraries-bind_by (name ∷ names) [] m at listed slots bindable named = absurd named
    bind_libraries-bind_by (name ∷ names) (text ∷ texts) m at listed slots bindable (this, rest) =
        rw (bind_library-behind name text m at listed slots bindable this) (
          bind_libraries-bind_by names texts (with_mem m (behind text m.mem)) at listed slots
            (behind-keeps (λ n. All (IsBindable img bs n) bs) text m.mem
              (λ q v n slot. All-store img bs q v slot n bs) slots bindable)
            (behind-keeps (λ n. AreNamed bs n names texts) text m.mem
              (λ q v n slot. AreNamed-store img bs q v slot n names texts) slots rest))
