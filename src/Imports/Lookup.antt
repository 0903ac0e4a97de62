-- ===== src/Imports/Lookup.antt =====
-- The resolver (bind.c): which library answers, and what apply_chained_bind does with the answer.
use maloader.Common.{
  ℕ, ◌+◌, ◌≡◌, ◌≢◌, refl, ◌⊎◌, inl, inr, some, List, ◌==◌, if◌then◌else◌, arith, Bool-cases, false,
  ap, true, ne_of_==, eq_of_==,
}
use maloader.Machine.{Machine, ok, success, failure, u32, u64, read_le, ◌>>=◌, when◌then◌else◌}
use maloader.Machine.Stores.{store64-mapped, with64}
use maloader.Host.{Host, rtld_default}
use maloader.Imports.{
  libc_name, libm_name, get_libc, set_libc, get_libm, set_libm, open_host_libc, open_host_libm, ask,
  lookup_host, resolve_macho_import_symbol, apply_chained_bind,
}

-- The handle of a library behind an attempt to open it.
abbrev pub opened : Host → (handle : ℕ) → List ℕ → ℕ
opened h handle name = if handle == 0 then h.dlopen name else handle

-- A library that is open and knows the name, and one that is not open or does not.
abbrev pub Knows : Host → (handle : ℕ) → List ℕ → Type 0
Knows h handle name = (handle ≢ 0) × (h.dlsym handle name ≢ 0)

abbrev pub IsSilent : Host → (handle : ℕ) → List ℕ → Type 0
IsSilent h handle name = (handle ≡ 0) ⊎ (h.dlsym handle name ≡ 0)

Knows-of_ask :
    (h : Host) (handle : ℕ) (name : List ℕ)
    → (ask h handle name == 0) ≡ false
    → Knows h handle name × (ask h handle name ≡ h.dlsym handle name)
unfolding ask
Knows-of_ask h handle name answered = elim (Bool-cases (handle == 0)) [
  | inl shut ↦ absurd (ground (arith, answered, shut))
  | inr there ↦ ((ne_of_== there, ground (arith, answered, there)), rw there refl)
]

IsSilent-of_ask :
    (h : Host) (handle : ℕ) (name : List ℕ)
    → (ask h handle name == 0) ≡ true
    → IsSilent h handle name
unfolding ask
IsSilent-of_ask h handle name unanswered = elim (Bool-cases (handle == 0)) [
  | inl shut ↦ inl (eq_of_== _ _ shut)
  | inr there ↦ inr (ground (arith, unanswered, there))
]

module _ (h : Host) where
  open_host_libc-opened :
      (m : Machine)
      → open_host_libc h m
        ≡ ok
            (opened h m.libc_handle libc_name)
            (record m { libc_handle = opened h m.libc_handle libc_name })
  unfolding open_host_libc get_libc set_libc ◌>>=◌
  open_host_libc-opened m = elim (Bool-cases (m.libc_handle == 0)) [
    | inl e ↦ rw e refl
    | inr e ↦ rw e refl
  ]

  open_host_libm-opened :
      (m : Machine)
      → open_host_libm h m
        ≡ ok
            (opened h m.libm_handle libm_name)
            (record m { libm_handle = opened h m.libm_handle libm_name })
  unfolding open_host_libm get_libm set_libm ◌>>=◌
  open_host_libm-opened m = elim (Bool-cases (m.libm_handle == 0)) [
    | inl e ↦ rw e refl
    | inr e ↦ rw e refl
  ]

  -- A name is answered by dlsym of libc where libc is open and knows it; else by dlsym of libm where
  -- that is open and knows it; else by the default search. libm is opened only where libc has no
  -- answer, and a library is opened only where it was not open before.
  pub lookup_host-order :
      (name : List ℕ) (m : Machine)
      → let libc = opened h m.libc_handle libc_name in
        let libm = opened h m.libm_handle libm_name in
        let both = record m { libc_handle = libc; libm_handle = libm } in
        (Knows h libc name
          × (lookup_host h name m ≡ ok (h.dlsym libc name) (record m { libc_handle = libc })))
        ⊎ ((IsSilent h libc name
              × Knows h libm name
              × (lookup_host h name m ≡ ok (h.dlsym libm name) both))
            ⊎ (IsSilent h libc name
                × IsSilent h libm name
                × (lookup_host h name m ≡ ok (h.dlsym rtld_default name) both)))
  unfolding lookup_host ◌>>=◌
  lookup_host-order name m =
      let libc = opened h m.libc_handle libc_name in
      let libm = opened h m.libm_handle libm_name in
      let both = record m { libc_handle = libc; libm_handle = libm } in
      elim (Bool-cases (ask h libc name == 0)) [
        | inr known ↦
            let (knows, answer) = Knows-of_ask h libc name known in
            inl (
              knows,
              rw (open_host_libc-opened m)
                  (rw known (ap (λ v. ok v (record m { libc_handle = libc })) answer)),
            )
        | inl silent ↦ inr (elim (Bool-cases (ask h libm name == 0)) [
          | inr known ↦
              let (knows, answer) = Knows-of_ask h libm name known in
              inl (
                IsSilent-of_ask h libc name silent,
                knows,
                rw (open_host_libc-opened m) (
                    rw silent (
                      rw (open_host_libm-opened (record m { libc_handle = libc }))
                        (rw known (ap (λ v. ok v both) answer)))),
              )
          | inl silent' ↦ inr (
            IsSilent-of_ask h libc name silent,
            IsSilent-of_ask h libm name silent',
            rw (open_host_libc-opened m) (
                rw silent
                  (rw (open_host_libm-opened (record m { libc_handle = libc })) (rw silent' refl))),
          )
        ])
      ]

-- The machine with one more bind counted, and one more unresolved one.
abbrev pub counted : Machine → Machine
counted m = record m {
  context = record m.context { chained_bind_count = u32 (m.context.chained_bind_count + 1) };
}

abbrev pub counted_unresolved : Machine → Machine
counted_unresolved m = record m {
  context = record m.context {
    chained_bind_count = u32 (m.context.chained_bind_count + 1);
    chained_unresolved_bind_count = u32 (m.context.chained_unresolved_bind_count + 1);
  };
}

pub apply_chained_bind-resolved :
    (h : Host) (loc symbol_name addend resolved old : ℕ) (m m' : Machine)
    → resolve_macho_import_symbol h symbol_name m ≡ ok resolved m'
    → read_le 8 m'.mem loc ≡ some old
    → (resolved == 0) ≡ false
    → apply_chained_bind h loc symbol_name addend m
      ≡ ok success (with64 (counted m') loc (u64 (resolved + addend)))
unfolding apply_chained_bind ◌>>=◌
apply_chained_bind-resolved h loc symbol_name addend resolved old m m' answered stored e =
    rw answered (rw e (rw (store64-mapped (counted m') loc (u64 (resolved + addend)) stored) refl))

-- Where the location can be read: a bind whose symbol has no address fails, counts as unresolved and
-- stores nothing; any other one succeeds, and stores the address plus the addend, modulo 2 ^ 64.
pub apply_chained_bind-outcome :
    (h : Host) (loc symbol_name addend resolved old : ℕ) (m m' : Machine)
    → resolve_macho_import_symbol h symbol_name m ≡ ok resolved m'
    → read_le 8 m'.mem loc ≡ some old
    → ((resolved ≡ 0)
        × (apply_chained_bind h loc symbol_name addend m ≡ ok failure (counted_unresolved m')))
      ⊎ ((resolved ≢ 0)
          × (apply_chained_bind h loc symbol_name addend m
              ≡ ok success (with64 (counted m') loc (u64 (resolved + addend)))))
unfolding apply_chained_bind ◌>>=◌
apply_chained_bind-outcome h loc symbol_name addend resolved old m m' answered stored =
    elim (Bool-cases (resolved == 0)) [
      | inl e ↦ inl (ground arith, rw answered (rw e refl))
      | inr e ↦ inr (
        ground arith,
        apply_chained_bind-resolved h loc symbol_name addend resolved old m m' answered stored e,
      )
    ]
