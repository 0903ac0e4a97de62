-- ===== src/Loader/Image.antt =====
-- What the load commands (main.c, loader_64) lay in an image that is mapped.
use mathlib.Core.Path.{subst}
use maloader.Common.{
  some-injective, ℕ, zero, suc, ◌+◌, ◌<◌, ◌≤◌, ◌≡◌, ◌≢◌, ap, ◌∙◌, sym, true, some, List, [], ◌∷◌,
  All, length, get_elem?, inl, inr, arith,
}
use maloader.Machine.{
  Mem, Machine, ok, read_bytes, put_bytes, u64, ◌>>=◌, Run, fault, exited, out_of_fuel,
}
use maloader.Machine.Memory.{
  read_bytes-congr, length-read_bytes, read_bytes-put_bytes, IsOutside-empty, IsOutside,
}
use maloader.Machine.Windows.{IsPart, read_bytes-IsPart}
use maloader.Formats.Parts.{read_segment-IsPart}
use maloader.Machine.Spares.{Leaves, Leaves-mono, Leaves-bind}
use maloader.Host.{Host}
use maloader.Formats.Commands.{SegmentCommand64}
use maloader.Segments.Copies.{copies}
use maloader.Loader.{load_command_64, load_commands_64}
use maloader.Loader.Layout.{
  IsCommands, commands_end, segment, other, Places, StandsAt, place_in, source_in, Stored,
  load_command_64-segment, load_command_64-other,
}
use maloader.Loader.Contents.{
  IsOff, AreOff, AreDisjoint, IsDisjoint, Stored-outside, IsPart-same, load_commands_64-keeps,
}

-- What holds of every run that returns, on a premise, holds of it with the premise given later.
Leaves-all :
    {A B : Type 0} (Q : B → Type 0) (P : B → A → Machine → Type 0) (r : Run A)
    → ((b : B) → Q b → Leaves (P b) r)
    → Leaves (λ x m. (b : B) → Q b → P b x m) r
Leaves-all Q P (ok x m) each = each
Leaves-all Q P fault each = tt
Leaves-all Q P exited each = tt
Leaves-all Q P out_of_fuel each = tt

-- The bytes of a segment's place lie in the place of no segment that its place is disjoint from.
IsOff-place :
    (w : Places) (seg : SegmentCommand64) (segs : List SegmentCommand64) (a : ℕ)
    → All (λ s. IsDisjoint (place_in w seg) seg.filesize (place_in w s) s.filesize) segs
    → (place_in w seg ≤ a) × (a < place_in w seg + seg.filesize)
    → IsOff w segs a
IsOff-place w seg [] a disjoint inside = tt
IsOff-place w seg (s ∷ segs) a (this, disjoint) inside =
    (outside this, IsOff-place w seg segs a disjoint inside)
  where
    outside :
        IsDisjoint (place_in w seg) seg.filesize (place_in w s) s.filesize
        → IsOutside (place_in w s) s.filesize a
    outside (inl empty) = absurd (omega (arith, inside, empty))
    outside (inr (inl empty)) = IsOutside-empty (place_in w s) s.filesize a empty
    outside (inr (inr (inl below))) = inl (omega arith)
    outside (inr (inr (inr above))) = inr (omega arith)

-- What the load of a segment that is copied leaves at its place.
Stored-placed :
    (w : Places) (seg : SegmentCommand64) (bs : List ℕ) (mem mem' : Mem)
    → Stored w seg mem mem'
    → copies seg ≡ true
    → read_bytes mem (source_in w seg) seg.filesize ≡ some bs
    → read_bytes mem' (place_in w seg) seg.filesize ≡ some bs
Stored-placed w seg bs mem mem' (inl (has_not, same)) has stored = absurd (grind (arith, has_not))
Stored-placed w seg bs mem mem' (inr (has', bs', stored', e)) has stored =
    let size : length bs' ≡ seg.filesize = length-read_bytes mem seg.filesize _ stored' in
    ap (λ (n : Mem). read_bytes n (place_in w seg) seg.filesize) e
    ∙ ap (read_bytes (put_bytes mem (place_in w seg) bs') (place_in w seg)) (sym size)
    ∙ read_bytes-put_bytes mem (place_in w seg) bs'
    ∙ sym stored'
    ∙ stored

module _ (h : Host) (file : Mem) (w : Places) (image : w.img_addr ≢ 0) (base : w.v_addr ≢ 0) where
  -- The place of a segment that is copied holds the bytes that the file has of it.
  pub load_commands_64-lays :
      (rounds p i : ℕ) (segs : List SegmentCommand64) (seg : SegmentCommand64) (bs : List ℕ)
      (m : Machine)
      → IsPart file m.mem
      → StandsAt w p m
      → IsCommands file rounds p segs
      → AreOff w segs file
      → AreDisjoint w segs
      → get_elem? segs i ≡ some seg
      → copies seg ≡ true
      → read_bytes file (source_in w seg) seg.filesize ≡ some bs
      → Leaves
          (λ _ m'. read_bytes m'.mem (place_in w seg) seg.filesize ≡ some bs)
          (load_commands_64 h rounds m)
  unfolding load_commands_64 ◌>>=◌
  load_commands_64-lays zero p i segs seg bs m part stands commands_end apart disjoint listed has
        stored =
      absurd (grind (arith, listed))
  load_commands_64-lays (suc rounds) p zero all seg bs m part stands
        (segment {segs} s read is_segment size few rest) apart (far, disjoint) listed has stored =
      let same : s ≡ seg = some-injective s seg listed in
      let stored' = read_bytes-IsPart file m.mem seg.filesize _ bs part stored in
      Leaves-bind (λ _ m'. StandsAt w (u64 (p + s.cmdsize)) m' × Stored w s m.mem m'.mem) _
        (load_command_64 h m) _
        (load_command_64-segment h w image base s p m stands
          (read_segment-IsPart file m.mem p part read) is_segment size few)
        (λ _ m' (stands', laid).
          Leaves-mono
            (λ _ n.
              (a : ℕ) → (place_in w s ≤ a) × (a < place_in w s + s.filesize) → n.mem a ≡ m'.mem a)
            _ (load_commands_64 h rounds m')
            (Leaves-all (λ a. (place_in w s ≤ a) × (a < place_in w s + s.filesize))
              (λ a _ n. n.mem a ≡ m'.mem a) (load_commands_64 h rounds m')
              (λ a inside.
                load_commands_64-keeps h file w image base rounds _ segs a m'
                  (IsPart-same file m.mem m'.mem
                    (λ b c has'. Stored-outside w s m.mem m'.mem b laid (apart b c has').0) part)
                  stands' rest (λ b c has'. (apart b c has').1)
                  (IsOff-place w s segs a far inside)))
            (λ _ n keeps.
              subst
                (λ (t : SegmentCommand64).
                  copies t ≡ true
                  → read_bytes m.mem (source_in w t) t.filesize ≡ some bs
                  → read_bytes n.mem (place_in w t) t.filesize ≡ some bs)
                same
                (λ has' there.
                  read_bytes-congr n.mem m'.mem s.filesize (place_in w s)
                    (λ a from upto. keeps a (from, upto))
                  ∙ Stored-placed w s bs m.mem m'.mem laid has' there)
                has stored'))
  load_commands_64-lays (suc rounds) p (suc i) all seg bs m part stands
        (segment {segs} s read is_segment size few rest) apart (far, disjoint) listed has stored =
      Leaves-bind (λ _ m'. StandsAt w (u64 (p + s.cmdsize)) m' × Stored w s m.mem m'.mem) _
        (load_command_64 h m) _
        (load_command_64-segment h w image base s p m stands
          (read_segment-IsPart file m.mem p part read) is_segment size few)
        (λ _ m' (stands', laid).
          load_commands_64-lays rounds _ i segs seg bs m'
            (IsPart-same file m.mem m'.mem
              (λ b c has'. Stored-outside w s m.mem m'.mem b laid (apart b c has').0) part)
            stands' rest (λ b c has'. (apart b c has').1) disjoint listed has stored)
  load_commands_64-lays (suc rounds) p i segs seg bs m part stands
        (other command read no_segment no_fixups rest) apart disjoint listed has stored =
      Leaves-bind (λ _ m'. StandsAt w (u64 (p + command.cmdsize)) m' × (m'.mem ≡ m.mem)) _
        (load_command_64 h m) _
        (load_command_64-other h w command p m stands (read_segment-IsPart file m.mem p part read)
          no_segment no_fixups)
        (λ _ m' (stands', mem).
          load_commands_64-lays rounds _ i segs seg bs m'
            (IsPart-same file m.mem m'.mem (λ b c has'. ap (λ (n : Mem). n b) mem) part) stands'
            rest apart disjoint listed has stored)
