-- ===== src/Bind/Bound.antt =====
-- What a word of the image holds behind do_bind (bind.c).
use mathlib.Core.Path.{subst}
use maloader.Common.{
  ℕ, zero, suc, ◌+◌, ◌≤◌, ◌≡◌, refl, sym, ap, ◌∙◌, some, none, Option, Bool-cases, inl, inr, ◌⊎◌,
  List, [], ◌∷◌, ◌++◌, length, All, get_elem?, ◌==◌, if◌then◌else◌, true, false,
}
use maloader.Machine.{Mem, Machine, DylibName, literal, ok, le_bytes, read_le, u64, ◌>>=◌}
use maloader.Machine.Memory.{read_le-put_bytes_apart, read_le-put_bytes_wraps, length-le_bytes}
use maloader.Host.{Host}
use maloader.Imports.{libc_name, libm_name}
use maloader.Bind.{dylib_list_retriever, do_bind}
use maloader.Bind.Libraries.{
  with_mem, found_in, bind_one, bind_all, bind_by, bind_libraries-bind_by,
}
use maloader.Bind.Bindable.{
  Named, infos_of, IsApart, IsClear, IsSeparate, IsSlot, IsBindable, AreNamed, store,
}

IsClear-at :
    (i : ℕ) (bs : List Named) (p n : ℕ) {b : Named}
    → IsClear bs p n
    → get_elem? bs i ≡ some b
    → IsApart p n b.0.address 8
IsClear-at i [] p n clear found = absurd (cc found)
IsClear-at zero (c ∷ bs) p n (apart, clear) found =
    subst (λ o. elim o [ none ↦ Unit {0} | some x ↦ IsApart p n x.0.address 8 ]) found apart
IsClear-at (suc i) (c ∷ bs) p n (apart, clear) found = IsClear-at i bs p n clear found

Slots-more :
    (bs cs : List Named) (c : Named)
    → All (λ b. IsSlot cs b.0.address) bs
    → All (λ b. IsSlot (c ∷ cs) b.0.address) bs
Slots-more [] cs c slots = tt
Slots-more (b ∷ bs) cs c (slot, slots) = (inr slot, Slots-more bs cs c slots)

Slots-self : (bs : List Named) → All (λ b. IsSlot bs b.0.address) bs
Slots-self [] = tt
Slots-self (b ∷ bs) = (inl refl, Slots-more bs bs b (Slots-self bs))

store-apart :
    (q v p : ℕ) (mem : Mem) → IsApart q 8 p 8 → read_le 8 (store q v mem) p ≡ read_le 8 mem p
store-apart q v p mem apart = read_le-put_bytes_apart 8 mem q (le_bytes 8 v) p (side apart)
  where
    side : IsApart q 8 p 8 → (p + 8 ≤ q) ⊎ (q + length (le_bytes 8 v) ≤ p)
    side (inl e) = inr (rw (length-le_bytes 8 v) e)
    side (inr e) = inl e

module _ (h : Host) where
  -- What a library of this name has for the name of an entry, or NULL.
  abbrev pub answer_of : (text name : List ℕ) → ℕ
  answer_of text name = if h.dlopen text == 0 then 0 else found_in h (h.dlopen text) name

  -- The answer of the last library that has one.
  abbrev pub last_answer : List (List ℕ) → (name : List ℕ) → Option ℕ
  last_answer [] name = none
  last_answer (text ∷ texts) name = elim (last_answer texts name) [
    | some v ↦ some v
    | none ↦ if answer_of text name == 0 then none else some (answer_of text name)
  ]

  -- The word of an entry in the end: the last answer, or what it held.
  abbrev pub bound : List (List ℕ) → (name : List ℕ) → (old : ℕ) → ℕ
  bound texts name old = elim (last_answer texts name) [ some v ↦ u64 v | none ↦ old ]

  bind_one-apart :
      (library : ℕ) (c : Named) (p : ℕ) (mem : Mem)
      → IsApart c.0.address 8 p 8
      → read_le 8 (bind_one h library c mem) p ≡ read_le 8 mem p
  unfolding bind_one
  bind_one-apart library c p mem apart = elim (Bool-cases (found_in h library c.1 == 0)) [
    | inl null ↦ rw null refl
    | inr there ↦ rw there (store-apart c.0.address (found_in h library c.1) p mem apart)
  ]

  bind_one-word :
      (library old : ℕ) (b : Named) (mem : Mem)
      → read_le 8 mem b.0.address ≡ some old
      → read_le 8 (bind_one h library b mem) b.0.address
        ≡ some (if found_in h library b.1 == 0 then old else u64 (found_in h library b.1))
  unfolding bind_one
  bind_one-word library old b mem stored = elim (Bool-cases (found_in h library b.1 == 0)) [
    | inl null ↦ rw null stored
    | inr there ↦ rw there (read_le-put_bytes_wraps mem b.0.address (found_in h library b.1))
  ]

  IsApart-flip : (p n q k : ℕ) → IsApart p n q k → IsApart q k p n
  IsApart-flip p n q k (inl e) = inr e
  IsApart-flip p n q k (inr e) = inl e

  bind_all-apart :
      (library : ℕ) (cs : List Named) (p : ℕ) (mem : Mem)
      → IsClear cs p 8
      → read_le 8 (bind_all h library cs mem) p ≡ read_le 8 mem p
  unfolding bind_all
  bind_all-apart library [] p mem clear = refl
  bind_all-apart library (c ∷ cs) p mem (apart, clear) =
      bind_all-apart library cs p (bind_one h library c mem) clear
      ∙ bind_one-apart library c p mem (IsApart-flip p 8 c.0.address 8 apart)

  bind_all-word :
      (i library old : ℕ) (cs : List Named) (b : Named) (mem : Mem)
      → IsSeparate cs
      → get_elem? cs i ≡ some b
      → read_le 8 mem b.0.address ≡ some old
      → read_le 8 (bind_all h library cs mem) b.0.address
        ≡ some (if found_in h library b.1 == 0 then old else u64 (found_in h library b.1))
  unfolding bind_all
  bind_all-word i library old [] b mem separate found stored = absurd (cc found)
  bind_all-word zero library old (c ∷ cs) b mem (clear, separate) found stored =
      let same : c ≡ b = ap (λ o. elim o [ none ↦ c | some x ↦ x ]) found in
      ap (λ x. read_le 8 (bind_all h library cs (bind_one h library x mem)) b.0.address) same
      ∙ bind_all-apart library cs b.0.address _ (subst (λ x. IsClear cs x.0.address 8) same clear)
      ∙ bind_one-word library old b mem stored
  bind_all-word (suc i) library old (c ∷ cs) b mem (clear, separate) found stored =
      bind_all-word i library old cs b (bind_one h library c mem) separate found
        (bind_one-apart library c b.0.address mem (IsClear-at i cs _ 8 clear found) ∙ stored)

  bound-later :
      (o : Option ℕ) (a old : ℕ)
      → (elim (let p : Option ℕ = elim o [
        | some v ↦ some v
        | none ↦ if a == 0 then none else some a
      ] in
          p) [ some v ↦ u64 v | none ↦ old ])
        ≡ (elim o [ some v ↦ u64 v | none ↦ if a == 0 then old else u64 a ])
  bound-later (some v) a old = refl
  bound-later none a old = elim (Bool-cases (a == 0)) [
    | inl null ↦ rw null refl
    | inr there ↦ rw there refl
  ]

  bind_by-word :
      (texts : List (List ℕ)) (i old : ℕ) (bs : List Named) (b : Named) (mem : Mem)
      → IsSeparate bs
      → get_elem? bs i ≡ some b
      → read_le 8 mem b.0.address ≡ some old
      → read_le 8 (bind_by h texts bs mem) b.0.address ≡ some (bound texts b.1 old)
  unfolding bind_by
  bind_by-word [] i old bs b mem separate found stored = stored
  bind_by-word (text ∷ texts) i old bs b mem separate found stored =
      bind_by-word texts i (if answer_of text b.1 == 0 then old else u64 (answer_of text b.1)) bs b
        _ separate found (first (Bool-cases (h.dlopen text == 0)))
      ∙ ap some (sym (bound-later (last_answer texts b.1) (answer_of text b.1) old))
    where
      first :
          ((h.dlopen text == 0) ≡ true) ⊎ ((h.dlopen text == 0) ≡ false)
          → read_le 8
              (if h.dlopen text == 0 then mem else bind_all h (h.dlopen text) bs mem)
              b.0.address
            ≡ some (if answer_of text b.1 == 0 then old else u64 (answer_of text b.1))
      first (inl absent) = rw absent stored
      first (inr there) =
          rw there (bind_all-word i (h.dlopen text) old bs b mem separate found stored)

AreNamed-append :
    (bs : List Named) (mem : Mem) (names : List DylibName) (texts : List (List ℕ)) (text : List ℕ)
    → AreNamed bs mem names texts
    → AreNamed bs mem (names ++ (literal text ∷ [])) (texts ++ (text ∷ []))
AreNamed-append bs mem [] [] text named = (refl, tt)
AreNamed-append bs mem [] (t ∷ texts) text named = absurd named
AreNamed-append bs mem (name ∷ names) [] text named = absurd named
AreNamed-append bs mem (name ∷ names) (t ∷ texts) text (this, rest) =
    (this, AreNamed-append bs mem names texts text rest)

-- The names that do_bind goes through: the file's, then libc and libm.
abbrev pub all_texts : List (List ℕ) → List (List ℕ)
all_texts texts = (texts ++ (libc_name ∷ [])) ++ (libm_name ∷ [])

-- do_bind returns, and each word of the bind list ends up with the address that the last of the
-- libraries knows for its symbol, where `mmap` and `__stack_chk_guard` are the loader's own functions
-- in every library that opens, libc and libm coming behind those that the file names, or with what
-- it held where none knows the symbol. That is so where every entry's word lies above the start of
-- the image and is mapped, where no two words overlap, and where the names of the entries and of the
-- libraries are texts in memory that none of these words overwrites.
pub do_bind-bound :
    (h : Host) (i old : ℕ) (bs : List Named) (texts : List (List ℕ)) (b : Named) (m : Machine)
    → m.context.b_list ≡ infos_of bs
    → IsSeparate bs
    → All (IsBindable m.context.img_addr bs m.mem) bs
    → AreNamed bs m.mem m.context.d_list texts
    → get_elem? bs i ≡ some b
    → read_le 8 m.mem b.0.address ≡ some old
    → (m' : Machine) × (do_bind h m ≡ ok tt m')
      × (read_le 8 m'.mem b.0.address ≡ some (bound h (all_texts texts) b.1 old))
unfolding do_bind dylib_list_retriever ◌>>=◌
do_bind-bound h i old bs texts b m listed separate bindable named found stored =
    let names = (m.context.d_list ++ (literal libc_name ∷ [])) ++ (literal libm_name ∷ []) in
    let m1 : Machine = record m { context = record m.context { d_list = names } } in
    let named' : AreNamed bs m.mem names (all_texts texts) =
      AreNamed-append bs m.mem _ _ libm_name (AreNamed-append bs m.mem _ texts libc_name named) in
    (
      with_mem m1 (bind_by h (all_texts texts) bs m.mem),
      bind_libraries-bind_by h m.context.img_addr bs names (all_texts texts) m1 refl listed
          (Slots-self bs) bindable named',
      bind_by-word h (all_texts texts) i old bs b m.mem separate found stored,
    )
