-- ===== src/Bind/Guards.antt =====
-- do_bind (bind.c) stores above the start of the image only: the guard on an entry's address.
use maloader.Common.{ℕ, ◌≤◌, ◌≡◌, refl, List, [], ◌∷◌, arith, codes}
use maloader.Machine.{Machine, DylibName, in_file, literal, BindInfo}
use maloader.Machine.Runs
use maloader.Machine.Runs.{Ensures}
use maloader.Machine.Evolves.{WellFormed}
use maloader.Machine.Spares.{
  Spares, Ensures-with, Spares-pure, Spares-bind, Spares-when, Spares-when_test, Spares-get_context,
  Spares-set_context, Spares-load8, Spares-c_string, Spares-strcmp_at, Spares-store64,
}
use maloader.Host.{Host}
use maloader.Bind.Evolution.{Keeps-do_bind}
use maloader.Bind.{
  dylib_list_retriever, dylib_text, initializer, bind_symbol, bind_symbols, bind_library,
  bind_libraries, do_bind,
}

module _ (h : Host) (img a : ℕ) (below : a ≤ img) where
  Spares-initializer : (library c : ℕ) → Spares img a (initializer h library c)
  unfolding initializer
  Spares-initializer library c = Spares-bind (Spares-strcmp_at (codes "mmap") c) λ is_mmap.
      Spares-when _ (Spares-pure _) (
        Spares-bind (Spares-strcmp_at (codes "__stack_chk_guard") c) λ is_guard.
          Spares-when _ (Spares-pure _) (Spares-bind (Spares-c_string c) λ name. Spares-pure _))

  Spares-bind_symbol : (library : ℕ) (info : BindInfo) → Spares img a (bind_symbol h library info)
  unfolding bind_symbol
  Spares-bind_symbol library info = Spares-get_context λ c there.
      Spares-when_test _ (λ _. Spares-pure tt)
        λ above. Spares-bind (Spares-load8 _) λ first.
          Spares-bind (Spares-initializer library _) λ value.
            Spares-when _ (Spares-pure tt)
              (Spares-store64 info.address value (ground (arith, there)))

  Spares-bind_symbols :
      (library : ℕ) (infos : List BindInfo) → Spares img a (bind_symbols h library infos)
  unfolding bind_symbols
  Spares-bind_symbols library [] = Spares-pure tt
  Spares-bind_symbols library (info ∷ rest) =
      Spares-bind (Spares-bind_symbol library info) λ _. Spares-bind_symbols library rest

  Spares-dylib_text : (name : DylibName) → Spares img a (dylib_text name)
  unfolding dylib_text
  Spares-dylib_text (in_file p) = Spares-c_string p
  Spares-dylib_text (literal text) = Spares-pure text

  Spares-bind_library : (name : DylibName) → Spares img a (bind_library h name)
  unfolding bind_library
  Spares-bind_library name =
      Spares-bind (Spares-dylib_text name) λ text.
        Spares-get_context λ c there. Spares-when _ (Spares-pure tt) (Spares-bind_symbols _ _)

  Spares-bind_libraries : (names : List DylibName) → Spares img a (bind_libraries h names)
  unfolding bind_libraries
  Spares-bind_libraries [] = Spares-pure tt
  Spares-bind_libraries (name ∷ rest) =
      Spares-bind (Spares-bind_library name) λ _. Spares-bind_libraries rest

  Spares-do_bind : Spares img a (do_bind h)
  unfolding do_bind dylib_list_retriever
  Spares-do_bind = Spares-bind (Spares-set_context _ (λ c. refl)) λ _.
      Spares-bind (Spares-set_context _ (λ c. refl))
        λ _. Spares-get_context λ c there. Spares-bind_libraries c.d_list

-- The binding of a well-formed machine ends, and leaves every byte as it is that does not lie behind
-- the first byte of the image.
pub do_bind-spares :
    (h : Host) (m : Machine) (a : ℕ)
    → WellFormed m
    → a ≤ m.context.img_addr
    → Ensures (λ _ m'. m'.mem a ≡ m.mem a) (do_bind h m)
do_bind-spares h m a well_formed below =
    Runs.mono
      (Ensures-with ((Keeps-do_bind h).run m well_formed)
        ((Spares-do_bind h m.context.img_addr a below).run m refl))
      (λ _ m' (_, (_, same)). same)
