-- ===== src/Machine/Runs.antt =====
-- What holds of every run of a command: it ends with enough fuel, and where it returns, the result
-- and the machine are as stated. A run may stop by a fault or by `exit(-1)`.
use maloader.Machine.{Machine, Run, ok, fault, exited, Cmd, and_then}

pub data Ensures {A : Type 0} (P : A → Machine → Type 0) : Run A → Type 0 where
  returns : {a : A} {m : Machine} → P a m → Ensures P (ok a m)
  faults : Ensures P fault
  exits : Ensures P exited

module _ {A : Type 0} {P : A → Machine → Type 0} where
  pub bind :
      {B : Type 0} {Q : B → Machine → Type 0} {r : Run A} {k : A → Cmd B}
      → Ensures P r
      → ((a : A) (m : Machine) → P a m → Ensures Q (k a m))
      → Ensures Q (and_then r k)
  bind (returns p) next = next _ _ p
  bind faults next = faults
  bind exits next = exits

  pub mono :
      {Q : A → Machine → Type 0} {r : Run A}
      → Ensures P r
      → ((a : A) (m : Machine) → P a m → Q a m)
      → Ensures Q r
  mono (returns p) weaken = returns (weaken _ _ p)
  mono faults weaken = faults
  mono exits weaken = exits
