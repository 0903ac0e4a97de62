-- ===== src/Loader/Contents.antt =====
-- The load commands (main.c, loader_64) leave alone what lies in no segment's place.
use maloader.Common.{
  ℕ, zero, suc, ◌+◌, ◌≤◌, ◌≡◌, ◌≢◌, refl, ap, ◌∙◌, some, List, [], ◌∷◌, All, length, inl, inr, ◌⊎◌,
}
use maloader.Machine.{Mem, Machine, u64, ◌>>=◌}
use maloader.Machine.Memory.{IsOutside, put_bytes-outside, length-read_bytes}
use maloader.Machine.Windows.{IsPart}
use maloader.Formats.Parts.{read_segment-IsPart}
use maloader.Machine.Spares.{Leaves, Leaves-mono, Leaves-bind}
use maloader.Host.{Host}
use maloader.Formats.Commands.{SegmentCommand64}
use maloader.Loader.{load_command_64, load_commands_64}
use maloader.Loader.Layout.{
  IsCommands, commands_end, segment, other, Places, StandsAt, place_in, Stored,
  load_command_64-segment, load_command_64-other,
}

-- `a` lies in the place of no segment.
abbrev pub IsOff : Places → List SegmentCommand64 → (a : ℕ) → Type 0
IsOff w segs a = All (λ seg. IsOutside (place_in w seg) seg.filesize a) segs

-- The place of no segment has a byte of the file.
abbrev pub AreOff : Places → List SegmentCommand64 → (file : Mem) → Type 0
AreOff w segs file = (a b : ℕ) → file a ≡ some b → IsOff w segs a

-- The `n` bytes at `p` and the `k` bytes at `q` have none in common.
abbrev pub IsDisjoint : (p n q k : ℕ) → Type 0
IsDisjoint p n q k = (n ≡ 0) ⊎ ((k ≡ 0) ⊎ ((p + n ≤ q) ⊎ (q + k ≤ p)))

-- No two segments have places that overlap.
abbrev pub AreDisjoint : Places → List SegmentCommand64 → Type 0
AreDisjoint w [] = Unit {0}
AreDisjoint w (seg ∷ segs) =
    All (λ s. IsDisjoint (place_in w seg) seg.filesize (place_in w s) s.filesize) segs
    × AreDisjoint w segs

pub Stored-outside :
    (w : Places) (seg : SegmentCommand64) (mem mem' : Mem) (a : ℕ)
    → Stored w seg mem mem'
    → IsOutside (place_in w seg) seg.filesize a
    → mem' a ≡ mem a
Stored-outside w seg mem mem' a (inl (has_not, same)) outside = ap (λ (n : Mem). n a) same
Stored-outside w seg mem mem' a (inr (has, bs, stored, e)) outside =
    let size : length bs ≡ seg.filesize = length-read_bytes mem seg.filesize _ stored in
    ap (λ (n : Mem). n a) e ∙ put_bytes-outside mem (place_in w seg) bs a (rw size outside)

pub IsPart-same :
    (file mem mem' : Mem)
    → ((a b : ℕ) → file a ≡ some b → mem' a ≡ mem a)
    → IsPart file mem
    → IsPart file mem'
IsPart-same file mem mem' same part = record { at = λ a b has. same a b has ∙ part.at a b has }

module _ (h : Host) (file : Mem) (w : Places) (image : w.img_addr ≢ 0) (base : w.v_addr ≢ 0) where
  -- A byte that lies in the place of no segment is as it was.
  pub load_commands_64-keeps :
      (rounds p : ℕ) (segs : List SegmentCommand64) (a : ℕ) (m : Machine)
      → IsPart file m.mem
      → StandsAt w p m
      → IsCommands file rounds p segs
      → AreOff w segs file
      → IsOff w segs a
      → Leaves (λ _ m'. m'.mem a ≡ m.mem a) (load_commands_64 h rounds m)
  unfolding load_commands_64 ◌>>=◌
  load_commands_64-keeps zero p segs a m part stands commands_end apart off = refl
  load_commands_64-keeps (suc rounds) p all a m part stands
        (segment {segs} seg read is_segment size few rest) apart (off, offs) =
      Leaves-bind (λ _ m'. StandsAt w (u64 (p + seg.cmdsize)) m' × Stored w seg m.mem m'.mem) _
        (load_command_64 h m) _
        (load_command_64-segment h w image base seg p m stands
          (read_segment-IsPart file m.mem p part read) is_segment size few)
        (λ _ m' (stands', stored).
          Leaves-mono (λ _ n. n.mem a ≡ m'.mem a) _ (load_commands_64 h rounds m')
            (load_commands_64-keeps rounds _ segs a m'
              (IsPart-same file m.mem m'.mem
                (λ b c has. Stored-outside w seg m.mem m'.mem b stored (apart b c has).0) part)
              stands' rest (λ b c has. (apart b c has).1) offs)
            (λ _ n same. same ∙ Stored-outside w seg m.mem m'.mem a stored off))
  load_commands_64-keeps (suc rounds) p segs a m part stands
        (other command read no_segment no_fixups rest) apart off =
      Leaves-bind (λ _ m'. StandsAt w (u64 (p + command.cmdsize)) m' × (m'.mem ≡ m.mem)) _
        (load_command_64 h m) _
        (load_command_64-other h w command p m stands (read_segment-IsPart file m.mem p part read)
          no_segment no_fixups)
        (λ _ m' (stands', mem).
          Leaves-mono (λ _ n. n.mem a ≡ m'.mem a) _ (load_commands_64 h rounds m')
            (load_commands_64-keeps rounds _ segs a m'
              (IsPart-same file m.mem m'.mem (λ b c has. ap (λ (n : Mem). n b) mem) part) stands'
              rest apart off)
            (λ _ n same. same ∙ ap (λ (n : Mem). n a) mem))
