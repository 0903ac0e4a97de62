-- ===== src/Loader/Outcome.antt =====
-- What loader_64 (main.c) returns, and where the walk over the commands stands.
use maloader.Common.{
  ℕ, zero, suc, ◌+◌, ◌*◌, ◌^◌, ◌<◌, ◌≡◌, ◌≢◌, refl, ap, ◌∙◌, some, ◌⊎◌, inl, inr, ◌==◌, ==-of_ne,
  arith, true, false, Bool, Bool-cases, ne_of_==, eq_of_==, lt→ltb,
}
use maloader.Machine.{
  Machine, Run, ok, fault, exited, out_of_fuel, and_then, advance_ptr, success, failure, Cmd, pure,
  get_context, set_context, reads, ◌>>=◌, when◌then◌else◌, u64,
}
use maloader.Machine.Runs
use maloader.Machine.Runs.{Ensures, returns, faults}
use maloader.Machine.Evolves.{WellFormed}
use maloader.Machine.Spares.{Leaves, Ensures-with}
use maloader.Formats.Header.{MachHeader64, read_mach_header_64, mh_execute, sizeof_mach_header_64}
use maloader.Host.{Host, MapsFresh}
use maloader.Loader.Evolution.{Keeps-loader_64}
use maloader.Machine.Yields.{IsReadOnly, reads_only}
use maloader.Formats.Commands.{
  sizeof_section_64, sizeof_segment_command_64, read_segment_command_64,
}
use maloader.Segments.{load_section_64}
use maloader.Loader.{sections_64, pass_segment_64, loader, loader_64, load_commands_64}

-- The machine with `context->ptr` at `p`.
abbrev pub with_ptr : Machine → ℕ → Machine
with_ptr m p = record m { context = record m.context { ptr = p } }

-- A file that is no executable is refused by both loaders before anything but the pointer changes.
pub loader_64-refuses :
    (h : Host) (m : Machine) (header : MachHeader64)
    → read_mach_header_64 m.mem m.context.memblock ≡ some header
    → header.filetype ≢ mh_execute
    → loader_64 h m ≡ ok failure (with_ptr m m.context.memblock)
unfolding loader_64 ◌>>=◌
loader_64-refuses h m header read other =
    rw (reads, read) (rw (==-of_ne header.filetype mh_execute other) refl)

-- Whatever the run of `c` returns is as stated.
record Returns {A : Type 0} (P : A → Type 0) (c : Cmd A) : Type 0 where
  run : (m : Machine) → Leaves (λ a _. P a) (c m)

Leaves-and_then :
    {A B : Type 0} (P : B → Type 0) (r : Run A) (k : A → Cmd B)
    → ((a : A) → Returns P (k a))
    → Leaves (λ b _. P b) (and_then r k)
Leaves-and_then P (ok a m) k next = (next a).run m
Leaves-and_then P fault k next = tt
Leaves-and_then P exited k next = tt
Leaves-and_then P out_of_fuel k next = tt

Returns-bind :
    {A B : Type 0} {P : B → Type 0} (c : Cmd A) {k : A → Cmd B}
    → ((a : A) → Returns P (k a))
    → Returns P (c >>= k)
unfolding ◌>>=◌
Returns-bind {P} c {k} next = record { run = λ m. Leaves-and_then P (c m) k next }

Returns-pure : {A : Type 0} {P : A → Type 0} (a : A) → P a → Returns P (pure a)
unfolding pure
Returns-pure a p = record { run = λ m. p }

Returns-when :
    {A : Type 0} {P : A → Type 0} {c d : Cmd A} (b : Bool)
    → Returns P c
    → Returns P d
    → Returns P (when b then c else d)
unfolding when◌then◌else◌
Returns-when true p q = p
Returns-when false p q = q

Returns-loader : (h : Host) → Returns (λ status. status ≡ failure) (loader h)
unfolding loader
Returns-loader h = Returns-bind _ λ _. Returns-bind _ λ c. Returns-bind _ λ header.
    Returns-when _ (Returns-pure failure refl) (
      Returns-bind _
        λ _. Returns-bind _ λ _. Returns-bind _ λ _. Returns-bind _ λ _. Returns-pure failure refl)

advance_ptr-with_ptr :
    (n : ℕ) (m : Machine) → advance_ptr n m ≡ ok tt (with_ptr m (u64 (m.context.ptr + n)))
unfolding set_context
advance_ptr-with_ptr n m = refl

IsReadOnly-load_section_64 : IsReadOnly load_section_64
unfolding load_section_64
IsReadOnly-load_section_64 = search reads_only depth 6

sections_64-passes :
    (rounds p : ℕ) (m : Machine)
    → m.context.ptr ≡ u64 p
    → Ensures
        (λ _ m'. m' ≡ with_ptr m (u64 (p + sizeof_section_64 * rounds)))
        (sections_64 rounds m)
unfolding sections_64 ◌>>=◌
sections_64-passes zero p m at = returns (ap (with_ptr m) (at ∙ omega arith))
sections_64-passes (suc rounds) p m at = Runs.bind (IsReadOnly-load_section_64.run m) λ _ m' same.
    rw same (
      Runs.mono
        (sections_64-passes rounds (p + sizeof_section_64)
          (with_ptr m (u64 (m.context.ptr + sizeof_section_64))) (rw at (omega arith)))
        (λ _ n e. e ∙ ap (with_ptr m) (omega arith)))

-- A segment command of fewer than 2 ^ 31 sections, whose `cmdsize` is its own and its sections'
-- size, is passed by exactly `cmdsize`, as every other command is, and passing it changes nothing
-- else. It stops at a fault where a section cannot be read.
pub pass_segment_64-passes :
    (n_section cmdsize : ℕ) (m : Machine)
    → cmdsize ≡ sizeof_segment_command_64 + sizeof_section_64 * n_section
    → n_section < 2 ^ 31
    → Ensures
        (λ _ m'. m' ≡ with_ptr m (u64 (m.context.ptr + cmdsize)))
        (pass_segment_64 n_section cmdsize m)
unfolding pass_segment_64 ◌>>=◌
pass_segment_64-passes n_section cmdsize m size fits = elim (Bool-cases (n_section == 0)) [
  | inl none_there ↦ rw none_there (returns refl)
  | inr some_there ↦
      rw (some_there, lt→ltb n_section (2 ^ 31) fits)
        (Runs.mono
          (sections_64-passes n_section (m.context.ptr + sizeof_segment_command_64) (with_ptr m _)
            refl)
          (λ _ n e. e ∙ ap (with_ptr m) (omega arith)))
]

Returns-commands :
    (h : Host) (ncmds : ℕ)
    → Returns
        (λ status. status ≡ success)
        (advance_ptr sizeof_mach_header_64 >>= λ _.
          (get_context >>= λ c.
          (reads (λ mem. read_segment_command_64 mem c.ptr) >>= λ _.
          (load_commands_64 h ncmds >>= λ _. pure success))))
Returns-commands h ncmds =
    Returns-bind _
      λ _. Returns-bind _ λ _. Returns-bind _ λ _. Returns-bind _ λ _. Returns-pure success refl

loader_64-succeeds :
    (h : Host) (m : Machine) (header : MachHeader64)
    → read_mach_header_64 m.mem m.context.memblock ≡ some header
    → (header.filetype == mh_execute) ≡ true
    → Leaves (λ status _. status ≡ success) (loader_64 h m)
unfolding loader_64 ◌>>=◌
loader_64-succeeds h m header read executable =
    rw (reads, read)
      (rw executable ((Returns-commands h header.ncmds).run (with_ptr m m.context.memblock)))

-- On a well-formed machine whose header can be read, with a host that maps fresh memory, the 64-bit
-- loader ends. If it returns, it reports success where the file is of type MH_EXECUTE, and a
-- failure where it is not.
pub loader_64-status :
    (h : Host) (m : Machine) (header : MachHeader64)
    → MapsFresh h
    → WellFormed m
    → read_mach_header_64 m.mem m.context.memblock ≡ some header
    → Ensures
        (λ status _.
          ((status ≡ success) × (header.filetype ≡ mh_execute))
          ⊎ ((status ≡ failure) × (header.filetype ≢ mh_execute)))
        (loader_64 h m)
loader_64-status h m header laws well_formed read =
    elim (Bool-cases (header.filetype == mh_execute)) [
      | inl e ↦
          Runs.mono
            (Ensures-with ((Keeps-loader_64 h laws).run m well_formed)
              (loader_64-succeeds h m header read e))
            (λ status m' (_, succeeded). inl (succeeded, eq_of_== _ _ e))
      | inr e ↦
          rw (loader_64-refuses h m header read (ne_of_== e)) (returns (inr (refl, ne_of_== e)))
    ]
