-- ===== src/Fixups/Settled.antt =====
-- What the image holds behind dump_chained_fixups (main.c).
use mathlib.Core.Path.{subst}
use maloader.Common.{
  ℕ, zero, suc, ◌+◌, ◌≤◌, ◌≡◌, refl, sym, ap, ◌∙◌, false, some, none, inl, inr, List, [], ◌∷◌,
  get_elem?, Option-cases, arith, ◌⊎◌, length,
}
use maloader.Machine.{Machine, read_le, read_bytes, le_bytes, u64, ◌>>=◌, store64, store_bytes}
use maloader.Machine.Memory.{IsOutside, read_le-congr, read_le-put_bytes}
use maloader.Machine.Runs
use maloader.Machine.Runs.{Ensures}
use maloader.Machine.Evolves.{WellFormed}
use maloader.Machine.Spares.{Leaves, Leaves-mono, Leaves-bind, Ensures-with}
use maloader.Machine.Footprint.{SameOn}
use maloader.Host.{Host}
use maloader.Formats.Fixups.{ChainedFixupsHeader}
use maloader.Fixups.{
  chained64_is_bind, chained64_rebase_target, apply_chained_64_offset_rebase, apply_entry,
  dump_chained_fixups,
}
use maloader.Fixups.Evolution.{Keeps-dump_chained_fixups}
use maloader.Fixups.Confined.{Preserves-apply_entry}
use maloader.Fixups.Walk.{
  Link, AreApart, AreSeparate, AreNoStreams, AreNoStreams-byte, IsByteOf, apply_all,
}
use maloader.Fixups.Pages.{Preserves-apply_all}
use maloader.Fixups.Links.{Avoid}
use maloader.Fixups.Payload.{payload, recounted, IsPayload, dump_chained_fixups-IsPayload}

-- The word at `loc` is the image's address plus `target`.
abbrev Settled : (img loc target : ℕ) → Machine → Type 0
Settled img loc target m = read_le 8 m.mem loc ≡ some (u64 (img + target))

-- The links that do not overlap a link spare its bytes.
Avoid-link : (es : List Link) (e : Link) → AreApart es e.0 8 → Avoid es (IsByteOf (e ∷ []))
Avoid-link [] e apart = tt
Avoid-link (d ∷ es) e (this, apart) = ((λ a byte. at a this byte), Avoid-link es e apart)
  where
    at : (a : ℕ) → (d.0 + 8 ≤ e.0) ⊎ (e.0 + 8 ≤ d.0) → IsByteOf (e ∷ []) a → IsOutside d.0 8 a
    at a (inl below) (inl (from, upto)) = inr (omega arith)
    at a (inr above) (inl (from, upto)) = inl (omega arith)
    at a side (inr byte) = absurd byte

module _ (h : Host) (base : ℕ) (hdr : ChainedFixupsHeader) where
  apply_entry-settles :
      (loc raw : ℕ) (m : Machine)
      → chained64_is_bind raw ≡ false
      → Leaves
          (λ _ m'. Settled m.context.img_addr loc (chained64_rebase_target raw) m')
          (apply_entry h base hdr loc raw m)
  unfolding apply_entry apply_chained_64_offset_rebase store64 store_bytes ◌>>=◌
  apply_entry-settles loc raw m is_rebase =
      let v = u64 (m.context.img_addr + chained64_rebase_target raw) in
      rw is_rebase (elim (Option-cases (read_bytes m.mem loc (length (le_bytes 8 v)))) [
        | inl e ↦ rw (e, store_bytes) tt
        | inr (old, e) ↦ rw (e, store_bytes) (read_le-put_bytes m.mem loc v (omega arith))
      ])

  first_settles :
      (loc raw img : ℕ) (es : List Link) (m : Machine)
      → m.context.img_addr ≡ img
      → AreApart es loc 8
      → AreNoStreams h ((loc, raw) ∷ es)
      → chained64_is_bind raw ≡ false
      → Leaves
          (λ _ m'. Settled img loc (chained64_rebase_target raw) m')
          (apply_all h base hdr ((loc, raw) ∷ es) m)
  unfolding apply_all ◌>>=◌
  first_settles loc raw img es m at apart (i, o, s) is_rebase =
      Leaves-bind (λ _ m'. Settled m.context.img_addr loc (chained64_rebase_target raw) m') _
        (apply_entry h base hdr loc raw m) _ (apply_entry-settles loc raw m is_rebase)
        (λ _ m' settled.
          Leaves-mono (λ _ n. SameOn (IsByteOf ((loc, raw) ∷ [])) m' n) _ _
            ((Preserves-apply_all h base hdr es
                (λ a byte.
                  AreNoStreams-byte h ((loc, raw) ∷ []) a ((i.0, tt), (o.0, tt), (s.0, tt)) byte)
                (Avoid-link es (loc, raw) apart)).run
              m')
            (λ _ n (same, _, _).
              read_le-congr 8 n.mem m'.mem loc (λ a from upto. same a (inl (from, upto)))
              ∙ settled
              ∙ ap (λ p. some (u64 (p + chained64_rebase_target raw))) at))

  apply_all-settles :
      (i loc raw img : ℕ) (es : List Link) (m : Machine)
      → m.context.img_addr ≡ img
      → AreSeparate es
      → AreNoStreams h es
      → get_elem? es i ≡ some (loc, raw)
      → chained64_is_bind raw ≡ false
      → Leaves
          (λ _ m'. Settled img loc (chained64_rebase_target raw) m')
          (apply_all h base hdr es m)
  unfolding apply_all ◌>>=◌
  apply_all-settles i loc raw img [] m at separate no_streams found is_rebase = absurd (cc found)
  apply_all-settles zero loc raw img (e ∷ es) m at (apart, separate) (i, o, s) found is_rebase =
      let same : e ≡ (loc, raw) = ap (λ x. elim x [ none ↦ e | some y ↦ y ]) found in
      subst
        (λ d.
          Leaves (λ _ m'. Settled img loc (chained64_rebase_target raw) m')
            (apply_all h base hdr (d ∷ es) m))
        (sym same)
        (first_settles loc raw img es m at (subst (λ d. AreApart es d.0 8) same apart)
          (subst (λ d. AreNoStreams h (d ∷ es)) same (i, o, s)) is_rebase)
  apply_all-settles (suc n) loc raw img (e ∷ es) m at (apart, separate) (i, o, s) found is_rebase =
      Leaves-bind (λ _ m'. m'.context.img_addr ≡ img) _ (apply_entry h base hdr e.0 e.1 m) _
        (Leaves-mono (λ _ m'. SameOn (λ _. ⊥) m m') _ _
          ((Preserves-apply_entry {Q = λ _. ⊥} h (λ a q. absurd q) base hdr e.0 (λ a q. absurd q)
              e.1).run
            m)
          (λ _ m' (_, img_same, _). img_same ∙ at))
        (λ _ m' at'.
          apply_all-settles n loc raw img es m' at' separate (i.1, o.1, s.1) found is_rebase)

-- On a well-formed machine, the application of a payload whose tables can be read, whose links overlap
-- neither each other nor the payload, and where neither lies in a variable that the program keeps a
-- standard stream in, ends; and where it returns, the location of each rebase among the first 512
-- links of a chain, between whatever binds it stands, holds the image's address plus the target that
-- its pointer named, modulo 2 ^ 64.
pub dump_chained_fixups-settles :
    (h : Host) (dataoff datasize lo n i loc raw : ℕ) (hdr : ChainedFixupsHeader) (es : List Link)
    (m : Machine)
    → WellFormed m
    → IsPayload h m dataoff datasize lo n hdr es
    → get_elem? es i ≡ some (loc, raw)
    → chained64_is_bind raw ≡ false
    → Ensures
        (λ _ m'.
          read_le 8 m'.mem loc ≡ some (u64 (m.context.img_addr + chained64_rebase_target raw)))
        (dump_chained_fixups h dataoff datasize m)
dump_chained_fixups-settles h dataoff datasize lo n i loc raw hdr es m well_formed p found
      is_rebase =
    Runs.mono
      (Ensures-with ((Keeps-dump_chained_fixups h dataoff datasize).run m well_formed) (
        rw (dump_chained_fixups-IsPayload h dataoff datasize lo n hdr es m p) (
          apply_all-settles h (payload m dataoff) hdr i loc raw m.context.img_addr es (recounted m)
            refl p.separate p.no_streams found is_rebase)))
      (λ _ m' (_, settled). settled)
