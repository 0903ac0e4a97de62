-- ===== src/Fixups/Payload.antt =====
-- dump_chained_fixups (main.c) as a whole: from the payload of LC_DYLD_CHAINED_FIXUPS to the pointers
-- that are applied.
use maloader.Common.{
  ℕ, ◌+◌, ◌≤◌, ◌<◌, ◌≡◌, refl, some, ◌⊎◌, inl, inr, List, [], ◌∷◌, leb, ltb, lt→ltb, le→not-ltb,
  lt→not-leb, arith, Bool-cases,
}
use maloader.Machine.{Mem, Machine, ok, read_le, u64, reads, ◌>>=◌}
use maloader.Machine.Memory.{IsOutside}
use maloader.Machine.Windows.{IsPart, read_le-IsPart, window, IsPart-window, window-inside}
use maloader.Host.{Host, stdinp, stdoutp, stderrp}
use maloader.Formats.Fixups.{
  ChainedFixupsHeader, read_chained_fixups_header, sizeof_chained_fixups_header,
}
use maloader.Fixups.{dump_chained_fixups}
use maloader.Fixups.Metadata.{read_chained_header-IsPart}
use maloader.Fixups.Confined.{IsNoStream}
use maloader.Fixups.Walk.{Link, IsApart, AreApart, AreSeparate, AreNoStreams, apply_all}
use maloader.Fixups.Links.{Has, Avoid}
use maloader.Fixups.Starts.{IsStarts, dump_segments-IsStarts}

-- Where the payload of the command lies.
abbrev pub payload : Machine → (dataoff : ℕ) → ℕ
payload m dataoff = u64 (m.context.memblock + dataoff)

-- The counters of the rebases and the binds are reset, that of the unresolved binds is not.
abbrev pub recounted : Machine → Machine
recounted m = record m {
  context = record m.context { chained_rebase_count = 0; chained_bind_count = 0 };
}

-- The `n` bytes at `lo` hold no variable that a stream is kept in.
abbrev pub HoldsNoStream : Host → (lo n : ℕ) → Type 0
HoldsNoStream h lo n =
    IsApart (h.address_of stdinp, 0) lo n
    × IsApart (h.address_of stdoutp, 0) lo n
    × IsApart (h.address_of stderrp, 0) lo n

IsOutside-window :
    (mem : Mem) (lo n q v a : ℕ) → IsApart (q, v) lo n → Has (window mem lo n) a → IsOutside q 8 a
IsOutside-window mem lo n q v a (inl below) (b, has) =
    inr (omega (arith, window-inside mem lo n a b has))
IsOutside-window mem lo n q v a (inr above) (b, has) =
    inl (omega (arith, window-inside mem lo n a b has))

IsNoStream-window :
    (h : Host) (mem : Mem) (lo n a : ℕ)
    → HoldsNoStream h lo n
    → Has (window mem lo n) a
    → IsNoStream h a
IsNoStream-window h mem lo n a (i, o, e) has = (
  IsOutside-window mem lo n _ 0 a i has,
  IsOutside-window mem lo n _ 0 a o has,
  IsOutside-window mem lo n _ 0 a e has,
)

Avoid-window :
    (mem : Mem) (lo n : ℕ) (es : List Link) → AreApart es lo n → Avoid es (Has (window mem lo n))
Avoid-window mem lo n [] apart = tt
Avoid-window mem lo n (e ∷ es) (this, apart) =
    ((λ a has. IsOutside-window mem lo n e.0 e.1 a this has), Avoid-window mem lo n es apart)

-- `es` are the links of the payload of `datasize` bytes. Its header and its tables lie within the
-- payload as far as the code checks it, and in the `n` bytes at `lo`, such as the file's; no link lies
-- there, no two links overlap, and no standard stream is kept in either.
pub record IsPayload (h : Host) (m : Machine) (dataoff datasize lo n : ℕ)
    (hdr : ChainedFixupsHeader) (es : List Link) : Type 0 where
  pub large : sizeof_chained_fixups_header ≤ datasize
  pub header : read_chained_fixups_header (window m.mem lo n) (payload m dataoff) ≡ some hdr
  pub within : hdr.starts_offset + 4 ≤ datasize
  pub seg_count : ℕ
  pub counted :
      read_le 4 (window m.mem lo n) (payload m dataoff + hdr.starts_offset) ≡ some seg_count
  pub starts :
      IsStarts
        (window m.mem lo n)
        (payload m dataoff + hdr.starts_offset)
        (payload m dataoff + datasize)
        m.context.segments
        m.mem
        m.context.img_addr
        seg_count
        0
        es
  pub separate : AreSeparate es
  pub apart : AreApart es lo n
  pub no_streams : AreNoStreams h es
  pub no_stream : HoldsNoStream h lo n

-- A payload whose tables can be read, and whose links overlap neither each other nor the payload, is
-- applied as a whole: the two counters are reset, and then every link of every chain, on every page of
-- every segment that is loaded and has the format DYLD_CHAINED_PTR_64_OFFSET, is applied once, in the
-- order of the tables, with the pointer that the image held before. Neither the links nor the payload
-- lie in a variable that the program keeps a standard stream in. A chain counts with its first 512
-- links.
pub dump_chained_fixups-IsPayload :
    (h : Host) (dataoff datasize lo n : ℕ) (hdr : ChainedFixupsHeader) (es : List Link)
    (m : Machine)
    → IsPayload h m dataoff datasize lo n hdr es
    → dump_chained_fixups h dataoff datasize m
      ≡ apply_all h (payload m dataoff) hdr es (recounted m)
unfolding dump_chained_fixups ◌>>=◌
dump_chained_fixups-IsPayload h dataoff datasize lo n hdr es m p =
    let base = payload m dataoff in
    let file = window m.mem lo n in
    let part : IsPart file m.mem = IsPart-window m.mem m.mem lo n (λ a _ _. refl) in
    rw (le→not-ltb datasize sizeof_chained_fixups_header p.large) (
      rw (reads, read_chained_header-IsPart file m.mem base part p.header)
        (rw
          (
            lt→not-leb datasize hdr.starts_offset (omega (arith, p.within)),
            le→not-ltb (base + datasize) (base + hdr.starts_offset + 4) (omega (arith, p.within)),
          )
          (rw (reads, read_le-IsPart file m.mem 4 (base + hdr.starts_offset) part p.counted)
            (dump_segments-IsStarts h base hdr file _ _
              (λ a has. IsNoStream-window h m.mem lo n a p.no_stream has) p.seg_count 0
              (recounted m) part p.starts p.separate p.no_streams
              (Avoid-window m.mem lo n es p.apart)))))

-- A payload that is smaller than its header, or whose starts table lies outside of it, is refused:
-- nothing is applied, and only the two counters are reset.
pub dump_chained_fixups-refuses :
    (h : Host) (dataoff datasize : ℕ) (hdr : ChainedFixupsHeader) (m : Machine)
    → (datasize < sizeof_chained_fixups_header)
      ⊎ ((read_chained_fixups_header m.mem (payload m dataoff) ≡ some hdr)
          × (datasize < hdr.starts_offset + 4))
    → dump_chained_fixups h dataoff datasize m ≡ ok tt (recounted m)
unfolding dump_chained_fixups ◌>>=◌
dump_chained_fixups-refuses h dataoff datasize hdr m (inl small) =
    rw (lt→ltb datasize sizeof_chained_fixups_header small) refl
dump_chained_fixups-refuses h dataoff datasize hdr m (inr (header, outside)) =
    elim (Bool-cases (ltb datasize sizeof_chained_fixups_header)) [
      | inl small ↦ rw small refl
      | inr large ↦ rw large (
          rw (reads, header)
            (elim (Bool-cases (leb datasize hdr.starts_offset)) [
              | inl behind ↦ rw behind refl
              | inr inside ↦
                  rw
                    (
                      inside,
                      lt→ltb (payload m dataoff + datasize)
                          (payload m dataoff + hdr.starts_offset + 4) (omega arith),
                    )
                    refl
            ]))
    ]
