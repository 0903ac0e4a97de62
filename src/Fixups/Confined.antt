-- ===== src/Fixups/Confined.antt =====
-- Where the application of a chained pointer (main.c, bind.c) writes: its own location, and the
-- variables of the standard streams.
use maloader.Common.{ℕ, ◌+◌, List, Option, none, some, refl}
use maloader.Machine.{pure, set_context, u32}
use maloader.Machine.Memory.{IsOutside}
use maloader.Machine.Footprint.{
  Preserves, Preserves-pure, Preserves-bind, Preserves-when, Preserves-reads, Preserves-get_context,
  Preserves-set_context, Preserves-store64, preserves,
}
use maloader.Host.{Host, Shim, stdinp, stdoutp, stderrp}
use maloader.Imports.{
  open_host_libc, open_host_libm, use_shim, lookup_host, resolve_name, resolve_macho_import_symbol,
  apply_chained_bind, answer, get_libc, get_libm, set_libc, set_libm,
}
use maloader.Formats.Fixups.{ChainedFixupsHeader}
use maloader.Fixups.{chained_import_name, apply_chained_64_offset_rebase, apply_entry}

-- The byte at `a` is in none of the three variables that hold a stream.
abbrev pub IsNoStream : Host → (a : ℕ) → Type 0
IsNoStream h a =
    IsOutside (h.address_of stdinp) 8 a
    × IsOutside (h.address_of stdoutp) 8 a
    × IsOutside (h.address_of stderrp) 8 a

module _ {Q : ℕ → Type 0} where
  Preserves-get_libc : Preserves Q get_libc
  unfolding get_libc pure
  Preserves-get_libc = record { run = λ m. ((λ a q. refl), refl, refl) }

  Preserves-get_libm : Preserves Q get_libm
  unfolding get_libm pure
  Preserves-get_libm = record { run = λ m. ((λ a q. refl), refl, refl) }

  Preserves-set_libc : (handle : ℕ) → Preserves Q (set_libc handle)
  unfolding set_libc pure
  Preserves-set_libc handle = record { run = λ m. ((λ a q. refl), refl, refl) }

  Preserves-set_libm : (handle : ℕ) → Preserves Q (set_libm handle)
  unfolding set_libm pure
  Preserves-set_libm handle = record { run = λ m. ((λ a q. refl), refl, refl) }

  -- A change of the counters alone.
  Preserves-count :
      (rebases binds unresolved : ℕ → ℕ)
      → Preserves Q (
          set_context λ c. record c {
            chained_rebase_count = rebases c.chained_rebase_count;
            chained_bind_count = binds c.chained_bind_count;
            chained_unresolved_bind_count = unresolved c.chained_unresolved_bind_count;
          })
  Preserves-count rebases binds unresolved = Preserves-set_context _ (λ c. refl) (λ c. refl)

module _ {Q : ℕ → Type 0} (h : Host) (no_stream : (a : ℕ) → Q a → IsNoStream h a) where
  Preserves-open_host_libc : Preserves Q (open_host_libc h)
  unfolding open_host_libc
  Preserves-open_host_libc = search (preserves, Preserves-get_libc, Preserves-set_libc)

  Preserves-open_host_libm : Preserves Q (open_host_libm h)
  unfolding open_host_libm
  Preserves-open_host_libm = search (preserves, Preserves-get_libm, Preserves-set_libm)

  Preserves-use_shim : (s : Shim) → Preserves Q (use_shim h s)
  unfolding use_shim
  Preserves-use_shim stdinp =
      Preserves-bind (Preserves-store64 _ _ (λ a q. (no_stream a q).0)) λ _. Preserves-pure _
  Preserves-use_shim stdoutp =
      Preserves-bind (Preserves-store64 _ _ (λ a q. (no_stream a q).1)) λ _. Preserves-pure _
  Preserves-use_shim stderrp =
      Preserves-bind (Preserves-store64 _ _ (λ a q. (no_stream a q).2)) λ _. Preserves-pure _
  Preserves-use_shim _ = Preserves-pure _

  Preserves-lookup_host : (name : List ℕ) → Preserves Q (lookup_host h name)
  unfolding lookup_host
  Preserves-lookup_host name =
      search (preserves, Preserves-open_host_libc, Preserves-open_host_libm) depth 9

  Preserves-answer : (name : List ℕ) (r : Option Shim) → Preserves Q (answer h name r)
  unfolding answer
  Preserves-answer name none = Preserves-lookup_host name
  Preserves-answer name (some shim) = Preserves-use_shim shim

  Preserves-resolve_name : (name : List ℕ) → Preserves Q (resolve_name h name)
  unfolding resolve_name
  Preserves-resolve_name name = Preserves-answer name _

  Preserves-resolve : (p : ℕ) → Preserves Q (resolve_macho_import_symbol h p)
  unfolding resolve_macho_import_symbol
  Preserves-resolve p = search (preserves, Preserves-resolve_name)

  module _ (base : ℕ) (hdr : ChainedFixupsHeader) (loc : ℕ)
      (apart : (a : ℕ) → Q a → IsOutside loc 8 a) where
    Preserves-apply_chained_bind :
        (name addend : ℕ) → Preserves Q (apply_chained_bind h loc name addend)
    unfolding apply_chained_bind
    Preserves-apply_chained_bind name addend = Preserves-bind (Preserves-resolve name) λ resolved.
        Preserves-bind (Preserves-count (λ x. x) (λ x. u32 (x + 1)) (λ x. x)) λ _.
          Preserves-when _
            (Preserves-bind (Preserves-count (λ x. x) (λ x. x) (λ x. u32 (x + 1)))
              λ _. Preserves-pure _)
            (Preserves-bind (Preserves-store64 loc _ apart) λ _. Preserves-pure _)

    pub Preserves-apply_entry : (raw : ℕ) → Preserves Q (apply_entry h base hdr loc raw)
    unfolding apply_entry chained_import_name apply_chained_64_offset_rebase
    Preserves-apply_entry raw =
        Preserves-when _
          (Preserves-bind
            (Preserves-when _ (Preserves-pure _)
              (Preserves-bind (Preserves-reads _) λ bits. Preserves-pure _))
            λ name.
              Preserves-when _
                (Preserves-bind (Preserves-apply_chained_bind name _) λ _. Preserves-pure tt)
                (Preserves-count (λ x. x) (λ x. u32 (x + 1)) (λ x. u32 (x + 1))))
          (Preserves-bind (Preserves-bind Preserves-get_context λ c. Preserves-store64 loc _ apart)
            λ _. Preserves-count (λ x. u32 (x + 1)) (λ x. x) (λ x. x))
