-- ===== src/Machine/Ends.antt =====
-- Commands whose runs end, keep the machine well-formed, and leave the program's arguments alone.
use maloader.Common.{◌≤◌, ◌≡◌, ◌∙◌, Bool, true, false, length, arith}
use maloader.Machine.{MachContext, Machine, Cmd, ◌>>=◌, when◌then◌else◌, set_context}
use maloader.Machine.Runs
use maloader.Machine.Runs.{Ensures, returns}
use maloader.Machine.Evolves.{WellFormed, Keeps}

abbrev pub SameArguments : Machine → Machine → Type 0
SameArguments m m' = (m'.context.argc ≡ m.context.argc) × (m'.context.argv ≡ m.context.argv)

pub record Ends {A : Type 0} (c : Cmd A) : Type 0 where
  pub run :
      (m : Machine) → WellFormed m → Ensures (λ _ m'. WellFormed m' × SameArguments m m') (c m)

pub Ends-of_Keeps : {A : Type 0} {c : Cmd A} → Keeps c → Ends c
Ends-of_Keeps p = record {
  run = λ m w. Runs.mono (p.run m w) (λ a m' (w', e). (w', (e.context.argc, e.context.argv)));
}

pub Ends-bind :
    {A B : Type 0} {c : Cmd A} {k : A → Cmd B} → Ends c → ((a : A) → Ends (k a)) → Ends (c >>= k)
unfolding ◌>>=◌
Ends-bind p q = record {
  run = λ m w.
      Runs.bind (p.run m w) λ a m' (w', (x, y)).
        Runs.mono ((q a).run m' w') (λ b n (v, (x', y')). (v, (x' ∙ x, y' ∙ y)));
}

pub Ends-when :
    {A : Type 0} {c d : Cmd A} (b : Bool) → Ends c → Ends d → Ends (when b then c else d)
unfolding when◌then◌else◌
Ends-when true p q = p
Ends-when false p q = q

-- A change of the context that leaves the arguments and the number of segments alone.
pub Ends-set_context :
    (f : MachContext → MachContext)
    → ((c : MachContext) → (f c).argc ≡ c.argc)
    → ((c : MachContext) → (f c).argv ≡ c.argv)
    → ((c : MachContext) → length (f c).segments ≤ length c.segments)
    → Ends (set_context f)
unfolding set_context
Ends-set_context f argc argv fits = record {
  run = λ m w. returns (
    record { bounded = w.bounded; table = omega (arith, w.table, fits m.context) },
    (argc m.context, argv m.context),
  );
}
