-- ===== src/Machine/Stores.antt =====
-- What a store of 64 bits does where its location can be read, and where it cannot.
use maloader.Common.{ℕ, ◌≡◌, none, some, List, Option-cases, inl, inr, arith, refl, ◌≢◌, [], ◌∷◌}
use maloader.Machine.{
  Mem, Machine, ok, put_bytes, read_bytes, le_bytes, read_le, store_bytes, store64, load64, reads,
  load8,
}

read_bytes-of_read_le :
    (n : ℕ) (mem : Mem) (p : ℕ) {v : ℕ}
    → read_le n mem p ≡ some v
    → (bs : List ℕ) × (read_bytes mem p n ≡ some bs)
unfolding read_le
read_bytes-of_read_le n mem p e = elim (Option-cases (read_bytes mem p n)) [
  | inl none_read ↦ absurd (ground arith)
  | inr (bs, e') ↦ (bs, e')
]

-- The machine with a number of 64 bits at `p`.
abbrev pub with64 : Machine → (p v : ℕ) → Machine
with64 m p v = record m { mem = put_bytes m.mem p (le_bytes 8 v) }

pub store64-mapped :
    (m : Machine) (p v : ℕ) {old : ℕ}
    → read_le 8 m.mem p ≡ some old
    → store64 p v m ≡ ok tt (with64 m p v)
unfolding store64 le_bytes
store64-mapped m p v e =
    let (bs, e') = read_bytes-of_read_le 8 m.mem p e in rw (e', store_bytes) refl

pub load64-mapped : (m : Machine) (p : ℕ) {v : ℕ} → read_le 8 m.mem p ≡ some v → load64 p m ≡ ok v m
unfolding load64 reads
load64-mapped m p e = rw (load64, reads, e) refl

pub store8-mapped :
    (m : Machine) (p b : ℕ)
    → m.mem p ≢ none
    → store_bytes p (b ∷ []) m ≡ ok tt (record m { mem = put_bytes m.mem p (b ∷ []) })
unfolding store_bytes read_bytes
store8-mapped m p b mapped = elim (Option-cases (m.mem p)) [
  | inl e ↦ absurd (mapped e)
  | inr (c, e) ↦ rw (e, store_bytes, read_bytes) refl
]

pub load8-mapped : (m : Machine) (p : ℕ) {b : ℕ} → m.mem p ≡ some b → load8 p m ≡ ok b m
unfolding load8 reads
load8-mapped m p e = rw (e, load8, reads) refl
