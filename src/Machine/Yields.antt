-- ===== src/Machine/Yields.antt =====
-- Commands that only read, and runs from one machine.
use maloader.Common.{◌≡◌, refl, ◌∙◌, Bool, true, false, Option, inl, inr, Option-cases, ℕ}
use maloader.Machine.{
  Mem, MachContext, Machine, Cmd, pure, undefined, reads, get_context, get_mem, ◌>>=◌,
  when◌then◌else◌, load8, load64,
}
use maloader.Machine.Runs
use maloader.Machine.Runs.{Ensures, returns, faults}
use maloader.Machine.Evolves.{Evolves-refl, Keeps}

-- The runs of `c` end and leave the machine as it is.
pub record IsReadOnly {A : Type 0} (c : Cmd A) : Type 0 where
  pub run : (m : Machine) → Ensures (λ _ m'. m' ≡ m) (c m)

pub Keeps-of_IsReadOnly : {A : Type 0} {c : Cmd A} → IsReadOnly c → Keeps c
Keeps-of_IsReadOnly p = record {
  run = λ m w. Runs.mono (p.run m) (λ a m' e. rw e (w, Evolves-refl m));
}

pub IsReadOnly-pure : {A : Type 0} (a : A) → IsReadOnly (pure a)
unfolding pure
IsReadOnly-pure a = record { run = λ m. returns refl }

pub IsReadOnly-bind :
    {A B : Type 0} {c : Cmd A} {k : A → Cmd B}
    → IsReadOnly c
    → ((a : A) → IsReadOnly (k a))
    → IsReadOnly (c >>= k)
unfolding ◌>>=◌
IsReadOnly-bind p q = record {
  run = λ m. Runs.bind (p.run m) (λ a m' e. Runs.mono ((q a).run m') (λ b n f. f ∙ e));
}

pub IsReadOnly-when :
    {A : Type 0} {c d : Cmd A} (b : Bool)
    → IsReadOnly c
    → IsReadOnly d
    → IsReadOnly (when b then c else d)
unfolding when◌then◌else◌
IsReadOnly-when true p q = p
IsReadOnly-when false p q = q

pub IsReadOnly-get_context : IsReadOnly get_context
unfolding get_context
IsReadOnly-get_context = record { run = λ m. returns refl }

pub IsReadOnly-undefined : {A : Type 0} → IsReadOnly {A = A} undefined
unfolding undefined
IsReadOnly-undefined = record { run = λ m. faults }

pub IsReadOnly-reads : {A : Type 0} (f : Mem → Option A) → IsReadOnly (reads f)
unfolding reads
IsReadOnly-reads {A} f = record {
  run = λ m. elim (Option-cases (f m.mem)) [
    | inl e ↦ rw (e, reads) faults
    | inr (a, e) ↦ rw (e, reads) (returns refl)
  ];
}

pub ruleset reads_only = (
  IsReadOnly-pure, IsReadOnly-bind, IsReadOnly-when, IsReadOnly-get_context, IsReadOnly-undefined,
  IsReadOnly-reads,
)

-- The run of `c` from one machine.
pub record Yields {A : Type 0} (m : Machine) (P : A → Machine → Type 0) (c : Cmd A) : Type 0 where
  pub run : Ensures P (c m)

module _ {m : Machine} where
  -- Behind a command that only reads, a run goes on from the same machine.
  pub Yields-read :
      {A B : Type 0} {P : B → Machine → Type 0} {c : Cmd A} {k : A → Cmd B}
      → IsReadOnly c
      → ((a : A) → Yields m P (k a))
      → Yields m P (c >>= k)
  unfolding ◌>>=◌
  Yields-read p q = record { run = Runs.bind (p.run m) (λ a m' e. rw e (q a).run) }

  pub Yields-get_context :
      {B : Type 0} {P : B → Machine → Type 0} {k : MachContext → Cmd B}
      → ((c : MachContext) → c ≡ m.context → Yields m P (k c))
      → Yields m P (get_context >>= k)
  unfolding ◌>>=◌
  Yields-get_context p = record { run = (p m.context refl).run }

  pub Yields-get_mem :
      {B : Type 0} {P : B → Machine → Type 0} {k : Mem → Cmd B}
      → ((mem : Mem) → mem ≡ m.mem → Yields m P (k mem))
      → Yields m P (get_mem >>= k)
  unfolding ◌>>=◌
  Yields-get_mem p = record { run = (p m.mem refl).run }

  pub Yields-pure : {A : Type 0} {P : A → Machine → Type 0} (a : A) → P a m → Yields m P (pure a)
  unfolding pure
  Yields-pure a p = record { run = returns p }

  pub Yields-undefined : {A : Type 0} {P : A → Machine → Type 0} → Yields m P undefined
  unfolding undefined
  Yields-undefined = record { run = faults }

  pub Yields-mono :
      {A : Type 0} {P Q : A → Machine → Type 0} {c : Cmd A}
      → Yields m P c
      → ((a : A) (m' : Machine) → P a m' → Q a m')
      → Yields m Q c
  Yields-mono p weaken = record { run = Runs.mono p.run weaken }

  -- A test, and what it shows in each branch.
  pub Yields-when :
      {A : Type 0} {P : A → Machine → Type 0} {c d : Cmd A} (b : Bool)
      → (b ≡ true → Yields m P c)
      → (b ≡ false → Yields m P d)
      → Yields m P (when b then c else d)
  unfolding when◌then◌else◌
  Yields-when true p q = p refl
  Yields-when false p q = q refl

pub IsReadOnly-load8 : (p : ℕ) → IsReadOnly (load8 p)
unfolding load8
IsReadOnly-load8 p = IsReadOnly-reads _

pub IsReadOnly-load64 : (p : ℕ) → IsReadOnly (load64 p)
unfolding load64
IsReadOnly-load64 p = IsReadOnly-reads _
