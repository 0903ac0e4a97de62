-- ===== src/Machine/Results.antt =====
-- Commands that keep the machine and whose result is as stated.
use maloader.Common.{Bool, true, false}
use maloader.Machine.{Machine, Cmd, pure, ◌>>=◌, when◌then◌else◌}
use maloader.Machine.Runs
use maloader.Machine.Runs.{Ensures, returns, faults}
use maloader.Machine.Evolves.{WellFormed, Kept, Evolves-refl, Evolves-trans, Keeps}

pub record KeepsTo {A : Type 0} (Q : A → Type 0) (c : Cmd A) : Type 0 where
  pub run : (m : Machine) → WellFormed m → Ensures (λ a m'. Kept m a m' × Q a) (c m)

pub Keeps-of_KeepsTo : {A : Type 0} {Q : A → Type 0} {c : Cmd A} → KeepsTo Q c → Keeps c
Keeps-of_KeepsTo p = record { run = λ m w. Runs.mono (p.run m w) (λ a m' (k, q). k) }

pub KeepsTo-of_Keeps : {A : Type 0} {c : Cmd A} → Keeps c → KeepsTo (λ _. Unit {0}) c
KeepsTo-of_Keeps p = record { run = λ m w. Runs.mono (p.run m w) (λ a m' k. (k, tt)) }

pub KeepsTo-pure : {A : Type 0} {Q : A → Type 0} (a : A) → Q a → KeepsTo Q (pure a)
unfolding pure
KeepsTo-pure a q = record { run = λ m w. returns ((w, Evolves-refl m), q) }

pub KeepsTo-bind :
    {A B : Type 0} {Q : A → Type 0} {R : B → Type 0} {c : Cmd A} {k : A → Cmd B}
    → KeepsTo Q c
    → ((a : A) → Q a → KeepsTo R (k a))
    → KeepsTo R (c >>= k)
unfolding ◌>>=◌
KeepsTo-bind p q = record {
  run = λ m w. Runs.bind (p.run m w) λ a m' ((w', e), r).
      Runs.mono ((q a r).run m' w') (λ b n ((v, f), s). ((v, Evolves-trans e f), s));
}

-- The same where nothing is known of the first result.
pub KeepsTo-then :
    {A B : Type 0} {R : B → Type 0} {c : Cmd A} {k : A → Cmd B}
    → Keeps c
    → ((a : A) → KeepsTo R (k a))
    → KeepsTo R (c >>= k)
KeepsTo-then p q = KeepsTo-bind (KeepsTo-of_Keeps p) (λ a _. q a)

pub KeepsTo-when :
    {A : Type 0} {Q : A → Type 0} {c d : Cmd A} (b : Bool)
    → KeepsTo Q c
    → KeepsTo Q d
    → KeepsTo Q (when b then c else d)
unfolding when◌then◌else◌
KeepsTo-when true p q = p
KeepsTo-when false p q = q
