-- ===== src/Loader/Invariant.antt =====
-- The 64-bit loader (main.c) and do_bind (bind.c) on a well-formed machine: they end, and undo nothing.
use maloader.Common.{ℕ, ◌≡◌, ◌≢◌, ◌==◌, eq_of_==, ne_of_==, ◌⊎◌, inl, inr, none, Bool-cases}
use maloader.Machine.{Machine}
use maloader.Machine.Runs
use maloader.Machine.Runs.{Ensures}
use maloader.Machine.Evolves.{WellFormed, Evolves, Extends, Kept}
use maloader.Host.{Host, MapsFresh}
use maloader.Loader.{loader_64}
use maloader.Loader.Evolution.{Keeps-loader_64}

-- The image of `m'` is that of `m`, if `m` had one.
abbrev pub SameImage : Machine → Machine → Type 0
SameImage m m' =
    (m.context.img_addr ≡ 0)
    ⊎ ((m'.context.img_addr ≡ m.context.img_addr) × (m'.context.v_addr ≡ m.context.v_addr))

SameImage-of_Evolves : (m m' : Machine) → Evolves m m' → SameImage m m'
SameImage-of_Evolves m m' e = elim (Bool-cases (m.context.img_addr == 0)) [
  | inl no_image ↦ inl (eq_of_== _ _ no_image)
  | inr image ↦ inr (e.context.img_addr (ne_of_== image), e.context.v_addr (ne_of_== image))
]

-- What is left of `m`, and of the byte at `a`: the file stays where it is, the byte stays mapped, the
-- image does not move, and the tables of segments, binds and libraries only grow.
abbrev pub Remains : Machine → (a : ℕ) → Machine → Type 0
Remains m a m' =
    WellFormed m'
    × (m'.mem a ≢ none)
    × (m'.context.memblock ≡ m.context.memblock)
    × SameImage m m'
    × Extends m.context.segments m'.context.segments
    × Extends m.context.b_list m'.context.b_list
    × Extends m.context.d_list m'.context.d_list

Remains-of_Kept :
    {A : Type 0} (m : Machine) (a : ℕ) (x : A) (m' : Machine)
    → m.mem a ≢ none
    → Kept m x m'
    → Remains m a m'
Remains-of_Kept m a x m' mapped (w, e) = (
  w,
  e.mapped a mapped,
  e.context.memblock,
  SameImage-of_Evolves m m' e,
  e.context.segments,
  e.context.b_list,
  e.context.d_list,
)

module _ (h : Host) (m : Machine) (a : ℕ) (well_formed : WellFormed m)
    (mapped : m.mem a ≢ none) where
  -- On a well-formed machine, with a host whose mmap maps fresh memory, the 64-bit loader ends for
  -- every content of the file: it never runs out of fuel, keeps the machine well-formed, with at
  -- most 32 segments in the table, leaves the file, a byte that was mapped and an image where they
  -- were, and its tables only grow. It may still stop at a fault or an exit.
  pub loader_64-Remains : MapsFresh h → Ensures (λ _ m'. Remains m a m') (loader_64 h m)
  loader_64-Remains laws =
      Runs.mono ((Keeps-loader_64 h laws).run m well_formed)
        (λ x m' k. Remains-of_Kept m a x m' mapped k)
