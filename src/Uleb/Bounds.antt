-- ===== src/Uleb/Bounds.antt =====
-- read_uleb128 ends on every input, reads only below `end`, and does not move past it.
use maloader.Common.{ℕ, zero, suc, ◌+◌, ◌≤◌, ◌<◌, ◌≡◌, refl, ◌⊎◌, inl, inr, arith}
use maloader.Machine.{Machine}
use maloader.Machine.Runs.{Ensures}
use maloader.Machine.Yields.{
  Yields, Yields-when, Yields-read, IsReadOnly-load8, Yields-pure, Yields-undefined, Yields-mono,
}
use maloader.Uleb.{uleb_loop, read_uleb128}

-- The pointer behind the number, for one that starts at `p`.
abbrev pub IsBehind : (p end : ℕ) → ℕ × ℕ → Type 0
IsBehind p end (n, q) = (p ≤ q) × ((q ≤ end) ⊎ (q ≡ p))

abbrev Read : Machine → (p end : ℕ) → ℕ × ℕ → Machine → Type 0
Read m p end r m' = (m' ≡ m) × IsBehind p end r

uleb_loop-Yields :
    (m : Machine) (fuel p end result bit : ℕ)
    → end < fuel + p
    → 0 < fuel
    → Yields m (Read m p end) (uleb_loop fuel p end result bit)
unfolding uleb_loop
uleb_loop-Yields m zero p end result bit h some_fuel = absurd (omega arith)
uleb_loop-Yields m (suc fuel) p end result bit h some_fuel =
    Yields-when _
      (λ below. Yields-read (IsReadOnly-load8 p) λ byte.
        Yields-when _ (λ _. Yields-undefined)
          λ _.
            Yields-when _ (λ _. Yields-pure _ (refl, (omega arith, inl (ground arith))))
              λ _.
                Yields-mono
                  (uleb_loop-Yields m fuel (p + 1) end _ (bit + 7) (omega arith) (ground arith))
                  (λ (n, q) m' (same, (from, upto)). (same, (omega arith, ground arith))))
      (λ _. Yields-pure _ (refl, (omega arith, inr refl)))

pub read_uleb128-Yields : (m : Machine) (p end : ℕ) → Yields m (Read m p end) (read_uleb128 p end)
unfolding read_uleb128
read_uleb128-Yields m p end = uleb_loop-Yields m _ p end 0 0 (omega arith) (omega arith)

-- Reading a number ends on every input, changes nothing, and leaves the pointer where it was or
-- behind it, at `end` at most.
pub read_uleb128-IsBehind :
    (m : Machine) (p end : ℕ) → Ensures (λ r m'. (m' ≡ m) × IsBehind p end r) (read_uleb128 p end m)
read_uleb128-IsBehind m p end = (read_uleb128-Yields m p end).run
