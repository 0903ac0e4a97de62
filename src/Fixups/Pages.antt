-- ===== src/Fixups/Pages.antt =====
-- The walk over the pages of a segment (main.c, dump_chained_64_offset_entries).
use maloader.Fixups.Prefix.{IsPrefix, IsPrefix-congr, walk_chain-IsPrefix}
use maloader.Machine.Spares.{Leaves, Leaves-mono}
use mathlib.Core.Path.{subst}
use maloader.Common.{
  ℕ, zero, suc, ◌+◌, ◌*◌, ◌≡◌, ◌≢◌, refl, sym, ap, ◌∙◌, some, ◌⊎◌, inl, inr, List, [], ◌∷◌, ◌++◌,
  ◌==◌, ==-of_ne, bit_and, Bool-cases, ==-of_eq,
}
use maloader.Machine.{Mem, Machine, ok, and_then, read_le, u64, reads, ◌>>=◌}
use maloader.Machine.Memory.{IsOutside}
use maloader.Machine.Windows.{IsPart, read_le-IsPart}
use maloader.Machine.Footprint.{
  SameOn, Preserves, Preserves-pure, Preserves-bind, and_then-congr, and_then_assoc,
}
use maloader.Host.{Host}
use maloader.Formats.Fixups.{
  ChainedFixupsHeader, ChainedStartsInSegment, offsetof_page_start, start_none, start_multi,
}
use maloader.Fixups.{walk_chain, walk_page, walk_pages, apply_entry}
use maloader.Fixups.Confined.{IsNoStream, Preserves-apply_entry}
use maloader.Fixups.Walk.{Link, AreSeparate, AreNoStreams, AreNoStreams-byte, IsByteOf, apply_all}
use maloader.Fixups.Links.{
  Has, Avoid, All-append, IsByteOf-left, IsByteOf-right, AreSeparate-append, AreNoStreams-append,
}

-- `es` are the links of the chains on the pages from `page` on, of which `rounds` are left. The
-- table of the pages' starts is read from `file`, the chains from `mem`, with the image at `img`. A
-- page without a chain, and one with several, has no link; a chain has its first 512.
pub data IsPages (file : Mem) (at : ℕ) (seg : ChainedStartsInSegment) (mem : Mem) (img : ℕ)
    : (rounds page : ℕ) → List Link → Type 0 where
  pages_end : {page : ℕ} → IsPages file at seg mem img zero page []
  skipped :
      {rounds page : ℕ} {es : List Link} (start : ℕ)
      → read_le 2 file (at + offsetof_page_start + 2 * page) ≡ some start
      → (start ≡ start_none) ⊎ (bit_and start start_multi ≢ 0)
      → IsPages file at seg mem img rounds (page + 1) es
      → IsPages file at seg mem img (suc rounds) page es
  chained :
      {rounds page : ℕ} {es rest : List Link} (start : ℕ)
      → read_le 2 file (at + offsetof_page_start + 2 * page) ≡ some start
      → start ≢ start_none
      → bit_and start start_multi ≡ 0
      → IsPrefix mem 512 (u64 (img + u64 (seg.segment_offset + page * seg.page_size + start))) es
      → IsPages file at seg mem img rounds (page + 1) rest
      → IsPages file at seg mem img (suc rounds) page (es ++ rest)

pub IsPages-congr :
    {file : Mem} {at : ℕ} {seg : ChainedStartsInSegment} {mem : Mem} {img : ℕ} {rounds page : ℕ}
    {es : List Link} (mem' : Mem)
    → ((a : ℕ) → IsByteOf es a → mem' a ≡ mem a)
    → IsPages file at seg mem img rounds page es
    → IsPages file at seg mem' img rounds page es
IsPages-congr mem' same pages_end = pages_end
IsPages-congr mem' same (skipped start read skips rest) =
    skipped start read skips (IsPages-congr mem' same rest)
IsPages-congr mem' same (chained {es} {rest} start read there single chain more) =
    chained start read there single
      (IsPrefix-congr mem' (λ a byte. same a (IsByteOf-left es rest a byte)) chain)
      (IsPages-congr mem' (λ a byte. same a (IsByteOf-right es rest a byte)) more)

module _ (h : Host) (base : ℕ) (hdr : ChainedFixupsHeader) where
  pub Preserves-apply_all :
      {Q : ℕ → Type 0} (es : List Link)
      → ((a : ℕ) → Q a → IsNoStream h a)
      → Avoid es Q
      → Preserves Q (apply_all h base hdr es)
  unfolding apply_all
  Preserves-apply_all [] no_stream avoids = Preserves-pure tt
  Preserves-apply_all (e ∷ es) no_stream (avoid, avoids) =
      Preserves-bind (Preserves-apply_entry h no_stream base hdr e.0 avoid e.1)
        λ _. Preserves-apply_all es no_stream avoids

  pub apply_all-append :
      (es rest : List Link) (m : Machine)
      → apply_all h base hdr (es ++ rest) m
        ≡ and_then (apply_all h base hdr es m) (λ _. apply_all h base hdr rest)
  unfolding apply_all ◌>>=◌
  apply_all-append [] rest m = refl
  apply_all-append (e ∷ es) rest m =
      and_then_assoc (apply_entry h base hdr e.0 e.1 m) _ (λ _. apply_all h base hdr es)
        (λ _. apply_all h base hdr rest) (λ _ n. apply_all-append es rest n)

  Avoid-both :
      (P Q : ℕ → Type 0) (es : List Link) → Avoid es P → Avoid es Q → Avoid es (λ a. P a ⊎ Q a)
  Avoid-both P Q [] p q = tt
  Avoid-both P Q (e ∷ es) (p, ps) (q, qs) = (either p q, Avoid-both P Q es ps qs)
    where
      either :
          ((a : ℕ) → P a → IsOutside e.0 8 a)
          → ((a : ℕ) → Q a → IsOutside e.0 8 a)
          → (a : ℕ) → P a ⊎ Q a
          → IsOutside e.0 8 a
      either f g a (inl x) = f a x
      either f g a (inr x) = g a x

  module _ (file : Mem) (no_stream : (a : ℕ) → Has file a → IsNoStream h a) where
    -- Behind some links, those that come later are still there, and so is the file.
    pub apply_all-behind :
        (es rest : List Link) (m : Machine)
        → IsPart file m.mem
        → AreNoStreams h rest
        → Avoid es (IsByteOf rest)
        → Avoid es (Has file)
        → Leaves
            (λ _ m'. SameOn (IsByteOf rest) m m' × IsPart file m'.mem)
            (apply_all h base hdr es m)
    apply_all-behind es rest m part no_streams between avoids =
        Leaves-mono (λ _ m'. SameOn (λ a. IsByteOf rest a ⊎ Has file a) m m') _ _
          ((Preserves-apply_all es either (Avoid-both _ _ es between avoids)).run m)
          (λ _ m' (same, img, segments). (
            ((λ a byte. same a (inl byte)), img, segments),
            record { at = λ a b has. same a (inr (b, has)) ∙ part.at a b has },
          ))
      where
        either : (a : ℕ) → IsByteOf rest a ⊎ Has file a → IsNoStream h a
        either a (inl byte) = AreNoStreams-byte h rest a no_streams byte
        either a (inr has) = no_stream a has

  module _ (at : ℕ) (seg : ChainedStartsInSegment) (file : Mem)
      (no_stream : (a : ℕ) → Has file a → IsNoStream h a) where
    walk_page-skips :
        (page start : ℕ) (m : Machine)
        → read_le 2 m.mem (at + offsetof_page_start + 2 * page) ≡ some start
        → (start ≡ start_none) ⊎ (bit_and start start_multi ≢ 0)
        → walk_page h base hdr at seg page m ≡ ok tt m
    unfolding walk_page ◌>>=◌
    walk_page-skips page start m stored (inl none_there) =
        rw (reads, stored) (rw (==-of_eq start start_none none_there) refl)
    walk_page-skips page start m stored (inr several) =
        rw (reads, stored)
          (elim (Bool-cases (start == start_none)) [
            | inl e ↦ rw e refl
            | inr e ↦ rw (e, ==-of_ne (bit_and start start_multi) 0 several) refl
          ])

    walk_page-walks :
        (page start : ℕ) (m : Machine)
        → read_le 2 m.mem (at + offsetof_page_start + 2 * page) ≡ some start
        → start ≢ start_none
        → bit_and start start_multi ≡ 0
        → walk_page h base hdr at seg page m
          ≡ walk_chain h base hdr 512
              (u64 (m.context.img_addr + u64 (seg.segment_offset + page * seg.page_size + start)))
              m
    unfolding walk_page ◌>>=◌
    walk_page-walks page start m stored there single =
        rw (reads, stored)
          (rw (==-of_ne start start_none there, ==-of_eq (bit_and start start_multi) 0 single) refl)

    -- The links of a segment's pages, applied page by page. The table of the pages is a part of the
    -- memory that no link lies in.
    pub walk_pages-IsPages :
        (rounds page : ℕ) {es : List Link} (m : Machine)
        → IsPart file m.mem
        → IsPages file at seg m.mem m.context.img_addr rounds page es
        → AreSeparate es
        → AreNoStreams h es
        → Avoid es (Has file)
        → walk_pages h base hdr at seg rounds page m ≡ apply_all h base hdr es m
    unfolding walk_pages ◌>>=◌
    walk_pages-IsPages zero page m part pages_end separate no_streams avoids =
        unfold apply_all in refl
    walk_pages-IsPages (suc rounds) page m part (skipped start read skips rest) separate no_streams
          avoids =
        ap (λ r. and_then r (λ _. walk_pages h base hdr at seg rounds (page + 1)))
          (walk_page-skips page start m (read_le-IsPart file m.mem 2 _ part read) skips)
        ∙ walk_pages-IsPages rounds (page + 1) m part rest separate no_streams avoids
    walk_pages-IsPages (suc rounds) page m part
          (chained {es} {rest} start read there single chain more) separate no_streams avoids =
        let (separate', separate'', between) = AreSeparate-append es rest separate in
        let (no_streams', no_streams'') = AreNoStreams-append h es rest no_streams in
        let (avoids', avoids'') = All-append _ es rest avoids in
        ap (λ r. and_then r (λ _. walk_pages h base hdr at seg rounds (page + 1)))
          (walk_page-walks page start m (read_le-IsPart file m.mem 2 _ part read) there single
            ∙ walk_chain-IsPrefix h base hdr 512 m chain separate' no_streams')
        ∙ and_then-congr (λ _ m'. SameOn (IsByteOf rest) m m' × IsPart file m'.mem)
            (apply_all h base hdr es m) _ (λ _. apply_all h base hdr rest)
            (apply_all-behind file no_stream es rest m part no_streams'' between avoids')
            (λ _ m' (same, part').
              walk_pages-IsPages rounds (page + 1) m' part' (moved m' same more) separate''
                no_streams'' avoids'')
        ∙ sym (apply_all-append es rest m)
      where
        moved :
            (m' : Machine)
            → SameOn (IsByteOf rest) m m'
            → IsPages file at seg m.mem m.context.img_addr rounds (page + 1) rest
            → IsPages file at seg m'.mem m'.context.img_addr rounds (page + 1) rest
        moved m' (same, img, segments) pages =
            subst (λ i. IsPages file at seg m'.mem i rounds (page + 1) rest) (sym img)
              (IsPages-congr m'.mem same pages)
