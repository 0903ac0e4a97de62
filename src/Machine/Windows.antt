-- ===== src/Machine/Windows.antt =====
-- A part of the memory that stays as it is, and reads from it.
use maloader.Common.{
  ℕ, zero, suc, ◌+◌, ◌<◌, ◌≤◌, ◌≡◌, sym, ◌⊎◌, ◌∙◌, Bool-cases, Option-cases, none, some, inl, inr,
  List, ltb, leb, ◌&&◌, if◌then◌else◌, arith,
}
use maloader.Machine.{Mem, read_bytes, read_le}
use maloader.Machine.Memory.{read_bytes-suc}

-- The `n` bytes of `mem` from `lo` on, and nothing else.
unfoldable pub window : Mem → (lo n : ℕ) → Mem
window mem lo n a = if leb lo a && ltb a (lo + n) then mem a else none

-- What `part` holds is in `mem`.
pub record IsPart (part mem : Mem) : Type 0 where
  pub at : (a b : ℕ) → part a ≡ some b → mem a ≡ some b

pub IsPart-window :
    (mem mem' : Mem) (lo n : ℕ)
    → ((a : ℕ) → lo ≤ a → a < lo + n → mem' a ≡ mem a)
    → IsPart (window mem lo n) mem'
unfolding window
IsPart-window mem mem' lo n same = record {
  at = λ a b e. elim (Bool-cases (leb lo a)) [
    | inr below ↦ absurd (ground arith)
    | inl from ↦ elim (Bool-cases (ltb a (lo + n))) [
      | inr above ↦ absurd (ground arith)
      | inl upto ↦ same a (ground arith) (ground arith) ∙ ground arith
    ]
  ];
}

pub read_bytes-IsPart :
    (part mem : Mem) (n p : ℕ) (bs : List ℕ)
    → IsPart part mem
    → read_bytes part p n ≡ some bs
    → read_bytes mem p n ≡ some bs
unfolding read_bytes
read_bytes-IsPart part mem zero p bs is_part e = e
read_bytes-IsPart part mem (suc n) p bs is_part e =
    let (b, cs, first, rest, all) = read_bytes-suc part n p e in
    let first' : mem p ≡ some b = is_part.at p b first in
    let rest' = read_bytes-IsPart part mem n (p + 1) cs is_part rest in
    ground (arith, first', rest', all)

pub read_le-IsPart :
    (part mem : Mem) (n p : ℕ) {v : ℕ}
    → IsPart part mem
    → read_le n part p ≡ some v
    → read_le n mem p ≡ some v
unfolding read_le
read_le-IsPart part mem n p is_part e = elim (Option-cases (read_bytes part p n)) [
  | inl x ↦ absurd (ground arith)
  | inr (bs, x) ↦ rw (read_le, read_bytes-IsPart part mem n p bs is_part x) (ground (arith, x))
]

-- A read of the part fails, or is a read of the memory.
pub agree :
    (part mem : Mem) (n p : ℕ)
    → IsPart part mem
    → (read_le n part p ≡ none) ⊎ (read_le n mem p ≡ read_le n part p)
agree part mem n p is_part = elim (Option-cases (read_le n part p)) [
  | inl e ↦ inl e
  | inr (v, e) ↦ inr (read_le-IsPart part mem n p is_part e ∙ sym e)
]

pub window-inside :
    (mem : Mem) (lo n a b : ℕ) → window mem lo n a ≡ some b → (lo ≤ a) × (a < lo + n)
unfolding window
window-inside mem lo n a b e = elim (Bool-cases (leb lo a)) [
  | inr below ↦ absurd (ground arith)
  | inl from ↦ elim (Bool-cases (ltb a (lo + n))) [
    | inr above ↦ absurd (ground arith)
    | inl upto ↦ (ground arith, ground arith)
  ]
]
