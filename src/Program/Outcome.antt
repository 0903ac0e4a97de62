-- ===== src/Program/Outcome.antt =====
-- What main (main.c) hands over to the loaded program.
use maloader.Common.{ℕ, ◌≡◌, ◌≢◌, refl, Option, some, List, ◌==◌, Bool-cases, inl, inr, ne_of_==}
use maloader.Machine.{Machine, Run, ok, fault, exited, out_of_fuel, and_then, Cmd, ◌>>=◌}
use maloader.Machine.Spares.{Leaves}
use maloader.Host.{Host}
use maloader.Program.{Diagnostic, Handoff, enter, load_program}

-- A hand-over at the entry point that the machine holds, which is not NULL.
abbrev pub IsReady : Option Handoff → Machine → Type 0
IsReady o m' =
    (handoff : Handoff) × (o ≡ some handoff)
    × (handoff.entry_point ≢ 0)
    × (handoff.entry_point ≡ m'.context.entry_point)
    × (handoff.argc ≡ m'.context.argc)
    × (handoff.argv ≡ m'.context.argv)

-- Whatever the run of `c` returns is ready.
pub record Readies (c : Cmd (Option Handoff)) : Type 0 where
  pub run : (m : Machine) → Leaves IsReady (c m)

Leaves-and_then :
    {A : Type 0} (r : Run A) (k : A → Cmd (Option Handoff))
    → ((a : A) → Readies (k a))
    → Leaves IsReady (and_then r k)
Leaves-and_then (ok a m) k next = (next a).run m
Leaves-and_then fault k next = tt
Leaves-and_then exited k next = tt
Leaves-and_then out_of_fuel k next = tt

Readies-bind :
    {A : Type 0} (c : Cmd A) {k : A → Cmd (Option Handoff)}
    → ((a : A) → Readies (k a))
    → Readies (c >>= k)
unfolding ◌>>=◌
Readies-bind c {k} next = record { run = λ m. Leaves-and_then (c m) k next }

Readies-enter : (printed : List Diagnostic) → Readies (enter printed)
unfolding enter ◌>>=◌
Readies-enter printed = record {
  run = λ m. elim (Bool-cases (m.context.entry_point == 0)) [
    | inl e ↦ rw e tt
    | inr e ↦ rw e (_, refl, ne_of_== e, refl, refl, refl)
  ];
}

pub Readies-load_program : (h : Host) (filename : List ℕ) → Readies (load_program h filename)
unfolding load_program
Readies-load_program h filename = Readies-bind _ λ _. Readies-bind _ λ _. Readies-bind _ λ _.
    Readies-bind _ λ _. Readies-bind _ λ _. Readies-bind _ λ _. Readies-bind _ λ _. Readies-enter _
