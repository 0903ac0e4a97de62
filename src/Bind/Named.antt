-- ===== src/Bind/Named.antt =====
-- One bind of do_bind (bind.c): which address a symbol is given, by its name.
use maloader.Common.{
  ℕ, ◌+◌, ◌^◌, ◌<◌, ◌≤◌, ◌≡◌, ◌≢◌, refl, sym, some, Bool-cases, inl, inr, List, [], ◌∷◌, ◌++◌,
  length, All, codes, ◌==◌, ==-of_ne, if◌then◌else◌, lt→not-leb, arith,
}
use maloader.Machine.{
  Machine, BindInfo, ok, read_bytes, read_le, strcmp_at, text_eq, ◌>>=◌, when◌then◌else◌, Mem,
}
use maloader.Machine.Memory.{read_bytes-cons}
use maloader.Machine.Stores.{load8-mapped, store64-mapped, with64}
use maloader.Host.{Host, host_mmap_for_darwin, guard}
use maloader.Imports.{skip_underscore}
use maloader.Bind.{initializer, bind_symbol}
use maloader.Bind.Arguments.{c_string-text}

-- A text without NUL lies at `p`, with its NUL.
abbrev pub HasTextIn : Mem → (p : ℕ) → List ℕ → Type 0
HasTextIn mem p text =
    All (λ b. b ≢ 0) text
    × (read_bytes mem p (length (text ++ 0 ∷ [])) ≡ some (text ++ 0 ∷ []))
    × (p + length text ≤ 2 ^ 64)

abbrev pub HasText : Machine → (p : ℕ) → List ℕ → Type 0
HasText m p text = HasTextIn m.mem p text

-- The comparison of texts in memory is that of the texts.
strcmp_at-HasText :
    (pattern text : List ℕ) (p : ℕ) (m : Machine)
    → All (λ b. b ≢ 0) pattern
    → HasText m p text
    → strcmp_at p pattern m ≡ ok (text_eq text pattern) m
unfolding strcmp_at text_eq ◌>>=◌
strcmp_at-HasText [] [] p m no_nul (clean, stored, fits) =
    let (first, _) = read_bytes-cons m.mem 0 p stored in rw (load8-mapped m p first) refl
strcmp_at-HasText [] (b ∷ text) p m no_nul ((differs, clean), stored, fits) =
    let (first, _) = read_bytes-cons m.mem (length (text ++ 0 ∷ [])) p stored in
    rw (load8-mapped m p first) (rw (==-of_ne b 0 differs) refl)
strcmp_at-HasText (c ∷ pattern) [] p m (differs, no_nul) (clean, stored, fits) =
    let (first, _) = read_bytes-cons m.mem 0 p stored in
    rw (load8-mapped m p first) (rw (==-of_ne 0 c (λ e. differs (sym e))) refl)
strcmp_at-HasText (c ∷ pattern) (b ∷ text) p m (differs, no_nul) ((differs', clean), stored, fits) =
    let (first, rest) = read_bytes-cons m.mem (length (text ++ 0 ∷ [])) p stored in
    rw (load8-mapped m p first) (elim (Bool-cases (b == c)) [
      | inl same ↦
          rw same (strcmp_at-HasText pattern text (p + 1) m no_nul (clean, rest, omega arith))
      | inr other ↦ rw other refl
    ])

abbrev mmap_name : List ℕ
mmap_name = codes "mmap"

abbrev guard_name : List ℕ
guard_name = codes "__stack_chk_guard"

-- What a name is bound to: the wrapper of mmap, the function `guard`, or the library's symbol.
abbrev pub value_of : Host → (library : ℕ) → List ℕ → ℕ
value_of h library name =
    if text_eq name (codes "mmap")
    then h.address_of host_mmap_for_darwin
    else if text_eq name (codes "__stack_chk_guard")
    then h.address_of guard
    else h.dlsym library name

mmap_name-clean : All (λ b. b ≢ 0) mmap_name
mmap_name-clean = ((λ e. cc), ((λ e. cc), ((λ e. cc), ((λ e. cc), tt))))

guard_name-clean : All (λ b. b ≢ 0) guard_name
guard_name-clean = (
  (λ e. cc),
  (
    (λ e. cc),
    (
      (λ e. cc),
      (
        (λ e. cc),
        (
          (λ e. cc),
          (
            (λ e. cc),
            (
              (λ e. cc),
              (
                (λ e. cc),
                (
                  (λ e. cc),
                  (
                    (λ e. cc),
                    (
                      (λ e. cc),
                      (
                        (λ e. cc),
                        ((λ e. cc), ((λ e. cc), ((λ e. cc), ((λ e. cc), ((λ e. cc), tt))))),
                      ),
                    ),
                  ),
                ),
              ),
            ),
          ),
        ),
      ),
    ),
  ),
)

initializer-HasText :
    (h : Host) (library c : ℕ) (text : List ℕ) (m : Machine)
    → HasText m c text
    → initializer h library c m ≡ ok (value_of h library text) m
unfolding initializer ◌>>=◌
initializer-HasText h library c text m has =
    rw (strcmp_at-HasText mmap_name text c m mmap_name-clean has)
      (elim (Bool-cases (text_eq text mmap_name)) [
        | inl is_mmap ↦ rw is_mmap refl
        | inr other ↦ rw other (
            rw (strcmp_at-HasText guard_name text c m guard_name-clean has)
              (elim (Bool-cases (text_eq text guard_name)) [
                | inl is_guard ↦ rw is_guard refl
                | inr other' ↦ rw other' (rw (c_string-text text c m has.0 has.1 has.2) refl)
              ]))
      ])

first_byte :
    (m : Machine) (p : ℕ) (text : List ℕ)
    → HasText m p text
    → (b : ℕ) × (m.mem p ≡ some b)
      × HasText m (if b == b'_' then p + 1 else p) (skip_underscore text)
unfolding skip_underscore
first_byte m p [] (clean, stored, fits) =
    let (first, _) = read_bytes-cons m.mem 0 p stored in (0, first, (clean, stored, fits))
first_byte m p (b ∷ text) ((differs, clean), stored, fits) =
    let (first, rest) = read_bytes-cons m.mem (length (text ++ 0 ∷ [])) p stored in
    (
      b,
      first,
      elim (Bool-cases (b == b'_')) [
        | inl bar ↦ rw bar (clean, rest, omega arith)
        | inr other ↦ rw other ((differs, clean), stored, fits)
      ],
    )

-- A bind above the start of the image, whose name is a text in memory and whose word can be read: the
-- word is set to what the name without its underscore is bound to, or left where that is NULL.
pub bind_symbol-HasText :
    (h : Host) (library old : ℕ) (info : BindInfo) (name : List ℕ) (m : Machine)
    → HasText m info.func_name name
    → m.context.img_addr < info.address
    → read_le 8 m.mem info.address ≡ some old
    → bind_symbol h library info m
      ≡ ok tt (
          if value_of h library (skip_underscore name) == 0
          then m
          else with64 m info.address (value_of h library (skip_underscore name)))
unfolding bind_symbol ◌>>=◌
bind_symbol-HasText h library old info name m has above stored =
    let (b, first, rest) = first_byte m info.func_name name has in
    let value = value_of h library (skip_underscore name) in
    rw (lt→not-leb _ _ above) (
      rw (load8-mapped m info.func_name first) (
        rw (initializer-HasText h library _ (skip_underscore name) m rest)
          (elim (Bool-cases (value == 0)) [
            | inl null ↦ rw null refl
            | inr there ↦ rw there (rw (store64-mapped m info.address value stored) refl)
          ])))
