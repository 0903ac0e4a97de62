-- ===== src/Imports/Evolution.antt =====
-- Resolving an import keeps the machine.
use maloader.Common.{ℕ, ◌+◌, List, Option, none, some, refl}
use maloader.Machine.{pure, set_context, u32}
use maloader.Machine.Runs.{returns}
use maloader.Machine.Evolves.{
  Extends-refl, Evolves-refl, Keeps, Keeps-pure, Keeps-bind, Keeps-when, Keeps-set_context, keeps,
}
use maloader.Machine.Commands.{Keeps-store64, keeps_commands}
use maloader.Host.{Host, Shim, stdinp, stdoutp, stderrp}
use maloader.Imports.{
  open_host_libc, open_host_libm, use_shim, lookup_host, resolve_name, resolve_macho_import_symbol,
  apply_chained_bind, answer, get_libc, get_libm, set_libc, set_libm,
}

-- A change of the counters alone.
pub Keeps-count :
    (rebases binds unresolved : ℕ → ℕ)
    → Keeps (
        set_context λ c. record c {
          chained_rebase_count = rebases c.chained_rebase_count;
          chained_bind_count = binds c.chained_bind_count;
          chained_unresolved_bind_count = unresolved c.chained_unresolved_bind_count;
        })
Keeps-count rebases binds unresolved =
    Keeps-set_context _
      (λ c. record {
        memblock = refl;
        argc = refl;
        argv = refl;
        bit = refl;
        img_addr = λ _. refl;
        v_addr = λ _. refl;
        segments = Extends-refl _;
        b_list = Extends-refl _;
        d_list = Extends-refl _;
      })
      (λ c h. h)

Keeps-get_libc : Keeps get_libc
unfolding get_libc pure
Keeps-get_libc = record { run = λ m w. returns (w, Evolves-refl m) }

Keeps-get_libm : Keeps get_libm
unfolding get_libm pure
Keeps-get_libm = record { run = λ m w. returns (w, Evolves-refl m) }

-- The handles are no part of what is kept.
Keeps-set_libc : (handle : ℕ) → Keeps (set_libc handle)
unfolding set_libc pure
Keeps-set_libc handle = record {
  run = λ m w. returns (
    record { bounded = w.bounded; table = w.table },
    record { mapped = λ a h. h; context = (Evolves-refl m).context },
  );
}

Keeps-set_libm : (handle : ℕ) → Keeps (set_libm handle)
unfolding set_libm pure
Keeps-set_libm handle = record {
  run = λ m w. returns (
    record { bounded = w.bounded; table = w.table },
    record { mapped = λ a h. h; context = (Evolves-refl m).context },
  );
}

module _ (h : Host) where
  Keeps-open_host_libc : Keeps (open_host_libc h)
  unfolding open_host_libc
  Keeps-open_host_libc = search (keeps, Keeps-get_libc, Keeps-set_libc)

  Keeps-open_host_libm : Keeps (open_host_libm h)
  unfolding open_host_libm
  Keeps-open_host_libm = search (keeps, Keeps-get_libm, Keeps-set_libm)

  Keeps-use_shim : (s : Shim) → Keeps (use_shim h s)
  unfolding use_shim
  Keeps-use_shim stdinp = search keeps_commands
  Keeps-use_shim stdoutp = search keeps_commands
  Keeps-use_shim stderrp = search keeps_commands
  Keeps-use_shim _ = Keeps-pure _

  Keeps-lookup_host : (name : List ℕ) → Keeps (lookup_host h name)
  unfolding lookup_host
  Keeps-lookup_host name = search (keeps, Keeps-open_host_libc, Keeps-open_host_libm) depth 9

  Keeps-answer : (name : List ℕ) (r : Option Shim) → Keeps (answer h name r)
  unfolding answer
  Keeps-answer name none = Keeps-lookup_host name
  Keeps-answer name (some shim) = Keeps-use_shim shim

  Keeps-resolve_name : (name : List ℕ) → Keeps (resolve_name h name)
  unfolding resolve_name
  Keeps-resolve_name name = Keeps-answer name _

  Keeps-resolve_macho_import_symbol : (p : ℕ) → Keeps (resolve_macho_import_symbol h p)
  unfolding resolve_macho_import_symbol
  Keeps-resolve_macho_import_symbol p = search (keeps_commands, Keeps-resolve_name)

  pub Keeps-apply_chained_bind :
      (loc name addend : ℕ) → Keeps (apply_chained_bind h loc name addend)
  unfolding apply_chained_bind
  Keeps-apply_chained_bind loc name addend =
      Keeps-bind (Keeps-resolve_macho_import_symbol name) λ resolved.
        Keeps-bind (Keeps-count (λ x. x) (λ x. u32 (x + 1)) (λ x. x)) λ _.
          Keeps-when _
            (Keeps-bind (Keeps-count (λ x. x) (λ x. x) (λ x. u32 (x + 1))) λ _. Keeps-pure _)
            (Keeps-bind (Keeps-store64 loc _) λ _. Keeps-pure _)
