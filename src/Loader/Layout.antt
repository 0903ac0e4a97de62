-- ===== src/Loader/Layout.antt =====
-- The walk of loader_64 (main.c) over the load commands, with an image: where each command stands, and
-- what it makes of the memory.
use mathlib.Core.Path.{subst}
use maloader.Common.{
  ℕ, zero, suc, ◌+◌, ◌*◌, ◌^◌, ◌<◌, ◌≡◌, ◌≢◌, ap, ◌∙◌, sym, true, false, some, List, [], ◌∷◌,
  ==-of_ne, ==-of_eq, inl, inr, ◌⊎◌,
}
use maloader.Machine.{Mem, Machine, read_bytes, put_bytes, reads, u64, sub64, ◌>>=◌}
use maloader.Machine.Spares.{Leaves, Leaves-mono, Leaves-bind, Leaves-of_Ensures}
use maloader.Machine.Steady.{IsSteady}
use maloader.Host.{Host}
use maloader.Formats.Commands.{
  SegmentCommand64, read_segment_command_64, lc_segment_64, lc_dyld_chained_fixups,
  sizeof_segment_command_64, sizeof_section_64,
}
use maloader.Segments.{load_segment_64}
use maloader.Segments.Copies.{copies, Copied, SamePlaces, load_segment_64-Copied}
use maloader.Loader.{pass_segment_64, run_command_64, load_command_64}
use maloader.Loader.Outcome.{with_ptr, pass_segment_64-passes}
use maloader.Loader.Steadiness.{Steady-run_command_64}

-- `segs` are the segments among the `rounds` load commands at `p`, read from `file`. The size of a
-- segment's command is that of its header and its sections, and no command carries chained fixups.
pub data IsCommands (file : Mem) : (rounds p : ℕ) → List SegmentCommand64 → Type 0 where
  commands_end : {p : ℕ} → IsCommands file zero p []
  segment :
      {rounds p : ℕ} {segs : List SegmentCommand64} (seg : SegmentCommand64)
      → read_segment_command_64 file p ≡ some seg
      → seg.cmd ≡ lc_segment_64
      → seg.cmdsize ≡ sizeof_segment_command_64 + sizeof_section_64 * seg.nsects
      → seg.nsects < 2 ^ 31
      → IsCommands file rounds (u64 (p + seg.cmdsize)) segs
      → IsCommands file (suc rounds) p (seg ∷ segs)
  other :
      {rounds p : ℕ} {segs : List SegmentCommand64} (command : SegmentCommand64)
      → read_segment_command_64 file p ≡ some command
      → command.cmd ≢ lc_segment_64
      → command.cmd ≢ lc_dyld_chained_fixups
      → IsCommands file rounds (u64 (p + command.cmdsize)) segs
      → IsCommands file (suc rounds) p segs

-- Where the file and the image are, and the current command.
pub record Places : Type 0 where
  pub memblock : ℕ
  pub img_addr : ℕ
  pub v_addr : ℕ

abbrev pub StandsAt : Places → (p : ℕ) → Machine → Type 0
StandsAt w p m =
    (m.context.memblock ≡ w.memblock)
    × (m.context.ptr ≡ p)
    × (m.context.img_addr ≡ w.img_addr)
    × (m.context.v_addr ≡ w.v_addr)

-- The place of a segment's bytes in the image, and in the file.
abbrev pub place_in : Places → SegmentCommand64 → ℕ
place_in w seg = u64 (w.img_addr + sub64 seg.vmaddr w.v_addr)

abbrev pub source_in : Places → SegmentCommand64 → ℕ
source_in w seg = u64 (w.memblock + seg.fileoff)

-- What a command makes of the memory.
abbrev pub Stored : Places → SegmentCommand64 → (mem mem' : Mem) → Type 0
Stored w seg mem mem' =
    ((copies seg ≡ false) × (mem' ≡ mem))
    ⊎ ((copies seg ≡ true)
        × (bs : List ℕ) × (read_bytes mem (source_in w seg) seg.filesize ≡ some bs)
        × (mem' ≡ put_bytes mem (place_in w seg) bs))

Stored-of_Copied :
    (w : Places) (p : ℕ) (seg : SegmentCommand64) (m m' : Machine)
    → StandsAt w p m
    → Copied m seg m'
    → Stored w seg m.mem m'.mem
Stored-of_Copied w p seg m m' (file, at, img, v) (inl (has_not, same)) = inl (has_not, same)
Stored-of_Copied w p seg m m' (file, at, img, v) (inr (has, bs, stored, e)) = inr (
  has,
  bs,
  ap (λ q. read_bytes m.mem (u64 (q + seg.fileoff)) seg.filesize) (sym file) ∙ stored,
  e
      ∙ ap (λ q. put_bytes m.mem (u64 (q + sub64 seg.vmaddr m.context.v_addr)) bs) img
      ∙ ap (λ q. put_bytes m.mem (u64 (w.img_addr + sub64 seg.vmaddr q)) bs) v,
)

module _ (h : Host) (w : Places) (image : w.img_addr ≢ 0) (base : w.v_addr ≢ 0) where
  pub load_command_64-segment :
      (seg : SegmentCommand64) (p : ℕ) (m : Machine)
      → StandsAt w p m
      → read_segment_command_64 m.mem p ≡ some seg
      → seg.cmd ≡ lc_segment_64
      → seg.cmdsize ≡ sizeof_segment_command_64 + sizeof_section_64 * seg.nsects
      → seg.nsects < 2 ^ 31
      → Leaves
          (λ _ m'. StandsAt w (u64 (p + seg.cmdsize)) m' × Stored w seg m.mem m'.mem)
          (load_command_64 h m)
  unfolding load_command_64 ◌>>=◌
  load_command_64-segment seg p m (file, at, img, v) read is_segment size few =
      let read' = ap (λ q. read_segment_command_64 m.mem q) at ∙ read in
      rw (reads, read')
        (rw (==-of_eq seg.cmd lc_segment_64 is_segment) (
          Leaves-bind (λ n m'. (n ≡ seg.nsects) × Copied m seg m' × SamePlaces m.context m'.context)
            _ (load_segment_64 h m) _
            (load_segment_64-Copied h seg m (λ z. image (sym img ∙ z)) (λ z. base (sym v ∙ z))
              read')
            (λ n m' (count, copied, (file', at', img', v')).
              Leaves-mono (λ _ m''. m'' ≡ with_ptr m' (u64 (m'.context.ptr + seg.cmdsize))) _
                (pass_segment_64 n seg.cmdsize m')
                (Leaves-of_Ensures (
                  pass_segment_64-passes n seg.cmdsize m'
                    (size ∙ ap (λ k. sizeof_segment_command_64 + sizeof_section_64 * k) (sym count))
                    (rw count few)))
                (λ _ m'' e.
                  subst
                    (λ (o : Machine).
                      StandsAt w (u64 (p + seg.cmdsize)) o × Stored w seg m.mem o.mem)
                    (sym e)
                    (
                      (
                        file' ∙ file,
                        ap (λ q. u64 (q + seg.cmdsize)) (at' ∙ at),
                        img' ∙ img,
                        v' ∙ v,
                      ),
                      Stored-of_Copied w p seg m m' (file, at, img, v) copied,
                    )))))

module _ (h : Host) (w : Places) where
  -- Whether an image is mapped or not.
  pub load_command_64-other :
      (command : SegmentCommand64) (p : ℕ) (m : Machine)
      → StandsAt w p m
      → read_segment_command_64 m.mem p ≡ some command
      → command.cmd ≢ lc_segment_64
      → command.cmd ≢ lc_dyld_chained_fixups
      → Leaves
          (λ _ m'. StandsAt w (u64 (p + command.cmdsize)) m' × (m'.mem ≡ m.mem))
          (load_command_64 h m)
  unfolding load_command_64 ◌>>=◌
  load_command_64-other command p m (file, at, img, v) read no_segment no_fixups =
      rw (reads, (ap (λ q. read_segment_command_64 m.mem q) at ∙ read))
        (rw (==-of_ne command.cmd lc_segment_64 no_segment) (
          Leaves-bind (λ _ m'. IsSteady m m') _ (run_command_64 h command.cmd m) _
            ((Steady-run_command_64 h command.cmd no_fixups).run m)
            (λ _ m' (mem, file', at', img', v'). (
              (file' ∙ file, ap (λ q. u64 (q + command.cmdsize)) (at' ∙ at), img' ∙ img, v' ∙ v),
              mem,
            ))))
