-- ===== src/Program/Ending.antt =====
-- main (main.c) comes to an end for every file.
use maloader.Common.{
  ℕ, ◌+◌, ◌-◌, ◌≡◌, ◌≢◌, ◌⊎◌, inl, inr, refl, ◌∙◌, none, some, Option, List, ◌==◌, Bool-cases,
  eq_of_==, ne_of_==, arith, Option-cases, ◌^◌,
}
use maloader.Machine.{Machine, read_le, ◌>>=◌, u32}
use maloader.Machine.Runs
use maloader.Machine.Runs.{Ensures, returns}
use maloader.Machine.Stores.{load64-mapped}
use maloader.Machine.Evolves.{
  WellFormed, Keeps-pure, Keeps-bind, Keeps-when, Keeps-get_context, Keeps-undefined,
  Keeps-exit_failure, keeps, Keeps,
}
use maloader.Machine.Commands.{Keeps-c_string}
use maloader.Machine.Ends.{Ends, Ends-of_Keeps, Ends-bind, Ends-when, Ends-set_context}
use maloader.Machine.Spares.{Ensures-with}
use maloader.Host.{Host, MapsFresh}
use maloader.Bind.Evolution.{Keeps-do_bind}
use maloader.Loader.Evolution.{Keeps-loader_64}
use maloader.Loader.Termination.{Ends-loader}
use maloader.Program.{
  Diagnostic, Handoff, open_exec, determine_bit, run_loader, enter, load_program, main,
  initial_context,
}
use maloader.Program.Outcome.{IsReady, Readies-load_program}

Keeps-enter : (printed : List Diagnostic) → Keeps (enter printed)
unfolding enter
Keeps-enter printed = Keeps-bind Keeps-get_context λ c. Keeps-when _ Keeps-undefined (Keeps-pure _)

Keeps-determine_bit : (p : ℕ) → Keeps (determine_bit p)
unfolding determine_bit
Keeps-determine_bit p = search keeps

module _ (h : Host) where
  Keeps-open_exec : (filename : List ℕ) → Keeps (open_exec h filename)
  unfolding open_exec
  Keeps-open_exec filename = record {
    run = λ m w. elim (Option-cases (h.map_file filename)) [
      | inl e ↦ rw (e, open_exec) (Keeps-exit_failure.run m w)
      | inr (memblock, e) ↦ rw (e, open_exec) ((Keeps-pure memblock).run m w)
    ];
  }

  module _ (laws : MapsFresh h) where
    Ends-run_loader : Ends (run_loader h)
    unfolding run_loader
    Ends-run_loader =
        Ends-bind (Ends-of_Keeps Keeps-get_context)
          λ c. Ends-when _ (Ends-loader h laws) (Ends-of_Keeps (Keeps-loader_64 h laws))

    Ends-load_program : (filename : List ℕ) → Ends (load_program h filename)
    unfolding load_program
    Ends-load_program filename = Ends-bind (Ends-of_Keeps (Keeps-open_exec filename)) λ memblock.
        Ends-bind (Ends-set_context _ (λ _. refl) (λ _. refl) (λ _. omega arith)) λ _.
          Ends-bind (Ends-of_Keeps (Keeps-determine_bit memblock)) λ bit.
            Ends-bind (Ends-set_context _ (λ _. refl) (λ _. refl) (λ _. omega arith)) λ _.
              Ends-bind Ends-run_loader λ result.
                Ends-bind (Ends-of_Keeps Keeps-get_context) λ c.
                  Ends-bind (Ends-of_Keeps (Keeps-do_bind h)) λ _. Ends-of_Keeps (Keeps-enter _)

    -- On a well-formed machine, with a host that maps fresh memory, every file is loaded and bound in
    -- finite time, whatever it holds and whether it is a 32-bit or a 64-bit one: the run stops at a
    -- fault or an exit, or hands over at the entry point that was found, which is not NULL.
    pub load_program-ends :
        (filename : List ℕ) (m : Machine)
        → WellFormed m
        → Ensures IsReady (load_program h filename m)
    load_program-ends filename m well_formed =
        Runs.mono
          (Ensures-with ((Ends-load_program filename).run m well_formed)
            ((Readies-load_program h filename).run m))
          (λ o m' (_, ready). ready)

-- A hand-over of a program that was started with `argc` and `argv`: at the entry point, which is not
-- NULL, and with the arguments behind the loader's own name.
abbrev pub HandsOver : (argc argv : ℕ) → Option Handoff → Machine → Type 0
HandsOver argc argv o m' =
    (handoff : Handoff) × (o ≡ some handoff)
    × (handoff.entry_point ≢ 0)
    × (handoff.entry_point ≡ m'.context.entry_point)
    × (handoff.argc ≡ u32 (argc + (2 ^ 32 - 1)))
    × (handoff.argv ≡ argv + 8)

abbrev started : (argc argv : ℕ) → Machine → Machine
started argc argv m = record m { context = initial_context argc argv }

load_program-HandsOver :
    (h : Host) (filename : List ℕ) (argc argv : ℕ) (m : Machine)
    → MapsFresh h
    → WellFormed m
    → Ensures (HandsOver argc argv) (load_program h filename (started argc argv m))
load_program-HandsOver h filename argc argv m laws w =
    Runs.mono
      (Ensures-with ((Ends-load_program h laws filename).run (started argc argv m) start)
        ((Readies-load_program h filename).run (started argc argv m)))
      (λ o m' ((_, (same_argc, same_argv)), (handoff, e, there, found, c, v)).
        (handoff, e, there, found, c ∙ same_argc, v ∙ same_argv))
  where
    start : WellFormed (started argc argv m)
    start = record { bounded = w.bounded; table = omega arith }

-- The program ends for every file and every machine that is well-formed, with a host that maps fresh
-- memory, where argv[1] can be read: without a file's name it returns at once, and with one it stops
-- at a fault or an exit, or hands over to the loaded program, at an entry point that is not NULL,
-- with one argument less, as a 32-bit int, and the vector of arguments one place on.
pub main-HandsOver :
    (h : Host) (argc argv arg : ℕ) (m : Machine)
    → MapsFresh h
    → WellFormed m
    → read_le 8 m.mem (argv + 8) ≡ some arg
    → Ensures
        (λ o m'. ((arg ≡ 0) × (o ≡ none)) ⊎ ((arg ≢ 0) × HandsOver argc argv o m'))
        (main h argc argv m)
unfolding main ◌>>=◌
main-HandsOver h argc argv arg m laws well_formed there =
    rw (load64-mapped m (argv + 8) there) (elim (Bool-cases (arg == 0)) [
      | inl e ↦ rw e (returns (inl (eq_of_== _ _ e, refl)))
      | inr e ↦ rw e (
          Runs.bind ((Keeps-c_string arg).run m well_formed) λ filename m' (w', _).
            Runs.mono (load_program-HandsOver h filename argc argv m' laws w')
              (λ o n hands. inr (ne_of_== e, hands)))
    ])
