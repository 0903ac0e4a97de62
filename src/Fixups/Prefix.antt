-- ===== src/Fixups/Prefix.antt =====
-- The links that a walk along a chain of a given number of rounds meets (main.c,
-- dump_chained_64_offset_entries): the whole chain, or its first links where it is longer.
use mathlib.Core.Path.{subst}
use maloader.Common.{
  ℕ, zero, suc, ◌+◌, ◌*◌, ◌≡◌, ◌≢◌, refl, ◌∙◌, sym, some, List, [], ◌∷◌, ==-of_ne, take, inl, inr,
  take-nil,
}
use maloader.Machine.{Mem, Machine, read_le, u64, ◌>>=◌}
use maloader.Machine.Memory.{read_le-congr}
use maloader.Machine.Footprint.{SameOn, and_then-congr}
use maloader.Host.{Host}
use maloader.Formats.Fixups.{ChainedFixupsHeader}
use maloader.Fixups.{chained64_next, walk_chain, apply_entry}
use maloader.Fixups.Confined.{Preserves-apply_entry}
use maloader.Fixups.Walk.{
  Link, IsChain, AreSeparate, AreNoStreams, AreNoStreams-byte, AreApart-byte, IsByteOf, apply_all,
  walk_chain-suc, zero_test,
}
use maloader.Fixups.Walk

-- `es` are the first links of the chain at `loc`, as many as `rounds`, or all of them where the
-- chain is shorter.
pub data IsPrefix (mem : Mem) : (rounds loc : ℕ) → List Link → Type 0 where
  cut : {loc : ℕ} → IsPrefix mem zero loc []
  final :
      {rounds loc : ℕ} (raw : ℕ)
      → read_le 8 mem loc ≡ some raw
      → chained64_next raw ≡ 0
      → IsPrefix mem (suc rounds) loc ((loc, raw) ∷ [])
  onward :
      {rounds loc : ℕ} {es : List Link} (raw : ℕ)
      → read_le 8 mem loc ≡ some raw
      → chained64_next raw ≢ 0
      → IsPrefix mem rounds (u64 (loc + chained64_next raw * 4)) es
      → IsPrefix mem (suc rounds) loc ((loc, raw) ∷ es)

-- What a chain has for a walk of `rounds` rounds.
pub IsPrefix-take :
    {mem : Mem} (rounds : ℕ) {loc : ℕ} {es : List Link}
    → IsChain mem loc es
    → IsPrefix mem rounds loc (take rounds es)
IsPrefix-take zero chain = cut
IsPrefix-take {mem} (suc rounds) {loc} (Walk.last raw stored ends) =
    subst (λ l. IsPrefix mem (suc rounds) loc ((loc, raw) ∷ l)) (sym (take-nil rounds))
      (final raw stored ends)
IsPrefix-take (suc rounds) (Walk.more raw stored goes_on rest) =
    onward raw stored goes_on (IsPrefix-take rounds rest)

pub IsPrefix-congr :
    {mem : Mem} {rounds loc : ℕ} {es : List Link} (mem' : Mem)
    → ((a : ℕ) → IsByteOf es a → mem' a ≡ mem a)
    → IsPrefix mem rounds loc es
    → IsPrefix mem' rounds loc es
IsPrefix-congr mem' same cut = cut
IsPrefix-congr {mem} mem' same (final raw stored ends) =
    final raw (read_le-congr 8 mem' mem _ (λ a from upto. same a (inl (from, upto))) ∙ stored) ends
IsPrefix-congr {mem} mem' same (onward raw stored goes_on rest) =
    onward raw (read_le-congr 8 mem' mem _ (λ a from upto. same a (inl (from, upto))) ∙ stored)
      goes_on (IsPrefix-congr mem' (λ a byte. same a (inr byte)) rest)

module _ (h : Host) (base : ℕ) (hdr : ChainedFixupsHeader) where
  -- Only the links that the walk meets must be apart.
  pub walk_chain-IsPrefix :
      (rounds : ℕ) {loc : ℕ} {es : List Link} (m : Machine)
      → IsPrefix m.mem rounds loc es
      → AreSeparate es
      → AreNoStreams h es
      → walk_chain h base hdr rounds loc m ≡ apply_all h base hdr es m
  unfolding apply_all ◌>>=◌
  walk_chain-IsPrefix zero m cut separate no_streams = unfold walk_chain in refl
  walk_chain-IsPrefix (suc rounds) {loc} m (final raw stored ends) separate no_streams =
      walk_chain-suc h base hdr rounds loc m stored ∙ rw (zero_test h base hdr ends) refl
  walk_chain-IsPrefix (suc rounds) {loc} m (onward {es} raw stored goes_on rest) (apart, separate)
        (i, o, e) =
      walk_chain-suc h base hdr rounds loc m stored
      ∙ rw (==-of_ne (chained64_next raw) 0 goes_on) (
          and_then-congr (λ _ m'. SameOn (IsByteOf es) m m') (apply_entry h base hdr loc raw m) _ _
            ((Preserves-apply_entry h (λ a byte. AreNoStreams-byte h es a (i.1, o.1, e.1) byte) base
                hdr loc (λ a byte. AreApart-byte es loc 8 a apart byte) raw).run
              m)
            (λ _ m' (same, _, _).
              walk_chain-IsPrefix rounds m' (IsPrefix-congr m'.mem same rest) separate
                (i.1, o.1, e.1)))
