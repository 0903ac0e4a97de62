-- ===== src/Fixups/Evolution.antt =====
-- Applying chained fixups keeps the machine.
use maloader.Common.{ℕ, zero, suc, ◌+◌}
use maloader.Machine.{u32}
use maloader.Machine.Evolves.{Keeps, Keeps-pure, Keeps-bind, Keeps-when, keeps, Keeps-get_context}
use maloader.Machine.Commands.{Keeps-load64, keeps_commands}
use maloader.Formats.Fixups.{ChainedFixupsHeader, ChainedStartsInSegment}
use maloader.Host.{Host}
use maloader.Imports.Evolution.{Keeps-count, Keeps-apply_chained_bind}
use maloader.Fixups.{
  chained_import_name, apply_chained_64_offset_rebase, apply_entry, walk_chain, walk_page,
  walk_pages, dump_chained_64_offset_entries, dump_segment, dump_segments, dump_chained_fixups,
}

Keeps-chained_import_name :
    (base : ℕ) (hdr : ChainedFixupsHeader) (ordinal : ℕ)
    → Keeps (chained_import_name base hdr ordinal)
unfolding chained_import_name
Keeps-chained_import_name base hdr ordinal = search keeps

Keeps-apply_rebase : (loc raw : ℕ) → Keeps (apply_chained_64_offset_rebase loc raw)
unfolding apply_chained_64_offset_rebase
Keeps-apply_rebase loc raw = search keeps_commands

module _ (h : Host) (base : ℕ) (hdr : ChainedFixupsHeader) where
  Keeps-apply_entry : (loc raw : ℕ) → Keeps (apply_entry h base hdr loc raw)
  unfolding apply_entry
  Keeps-apply_entry loc raw =
      Keeps-when _
        (Keeps-bind (Keeps-chained_import_name base hdr _) λ name.
          Keeps-when _ (Keeps-bind (Keeps-apply_chained_bind h loc name _) λ _. Keeps-pure tt)
            (Keeps-count (λ x. x) (λ x. u32 (x + 1)) (λ x. u32 (x + 1))))
        (Keeps-bind (Keeps-apply_rebase loc raw)
          λ _. Keeps-count (λ x. u32 (x + 1)) (λ x. x) (λ x. x))

  Keeps-walk_chain : (rounds loc : ℕ) → Keeps (walk_chain h base hdr rounds loc)
  unfolding walk_chain
  Keeps-walk_chain zero loc = Keeps-pure tt
  Keeps-walk_chain (suc rounds) loc = Keeps-bind (Keeps-load64 loc) λ raw.
      Keeps-bind (Keeps-apply_entry loc raw)
        λ _. Keeps-when _ (Keeps-pure tt) (Keeps-walk_chain rounds _)

  Keeps-walk_page :
      (at : ℕ) (seg : ChainedStartsInSegment) (page : ℕ) → Keeps (walk_page h base hdr at seg page)
  unfolding walk_page
  Keeps-walk_page at seg page = search (keeps, Keeps-walk_chain) depth 9

  Keeps-walk_pages :
      (at : ℕ) (seg : ChainedStartsInSegment) (rounds page : ℕ)
      → Keeps (walk_pages h base hdr at seg rounds page)
  unfolding walk_pages
  Keeps-walk_pages at seg zero page = Keeps-pure tt
  Keeps-walk_pages at seg (suc rounds) page =
      Keeps-bind (Keeps-walk_page at seg page) λ _. Keeps-walk_pages at seg rounds (page + 1)

  Keeps-dump_entries :
      (i at : ℕ) (seg : ChainedStartsInSegment)
      → Keeps (dump_chained_64_offset_entries h base hdr i at seg)
  unfolding dump_chained_64_offset_entries
  Keeps-dump_entries i at seg = search (keeps, Keeps-walk_pages)

  Keeps-dump_segment :
      (starts fixups_end i : ℕ) → Keeps (dump_segment h base hdr starts fixups_end i)
  unfolding dump_segment
  Keeps-dump_segment starts fixups_end i = search (keeps, Keeps-dump_entries) depth 9

  Keeps-dump_segments :
      (starts fixups_end rounds i : ℕ) → Keeps (dump_segments h base hdr starts fixups_end rounds i)
  unfolding dump_segments
  Keeps-dump_segments starts fixups_end zero i = Keeps-pure tt
  Keeps-dump_segments starts fixups_end (suc rounds) i =
      Keeps-bind (Keeps-dump_segment starts fixups_end i)
        λ _. Keeps-dump_segments starts fixups_end rounds (i + 1)

pub Keeps-dump_chained_fixups :
    (h : Host) (dataoff datasize : ℕ) → Keeps (dump_chained_fixups h dataoff datasize)
unfolding dump_chained_fixups
Keeps-dump_chained_fixups h dataoff datasize = Keeps-bind Keeps-get_context λ c.
    Keeps-bind (Keeps-count (λ _. 0) (λ _. 0) (λ x. x))
      λ _. search (keeps, Keeps-dump_segments) depth 9
