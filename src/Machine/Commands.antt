-- ===== src/Machine/Commands.antt =====
-- The elementary commands keep the machine, and `c_string` has fuel enough.
use maloader.Common.{
  ℕ, zero, suc, ◌+◌, ◌^◌, ◌≤◌, ◌<◌, ◌≡◌, ◌⊎◌, inl, inr, Option-cases, false, none, List, [], ◌∷◌,
  length, arith, ◌==◌, refl,
}
use maloader.Machine.{
  Mem, Machine, ◌>>=◌, reads, put_bytes, map_zero, read_bytes, le_bytes, load8, load64, store_bytes,
  store64, memcpy, c_string_loop, c_string, strcmp_at, add_mapping, set_context, MachContext,
}
use maloader.Machine.Memory.{
  IsMapped, IsOutside, put_bytes-outside, put_bytes-ne-none, IsMapped-of_read,
}
use maloader.Machine.Runs
use maloader.Machine.Runs.{Ensures, returns, faults}
use maloader.Machine.Evolves.{
  WellFormed, Evolves, Keeps, Kept, Evolves-refl, Keeps-pure, Keeps-bind, Keeps-when, Keeps-reads,
  Keeps-undefined, Kept-then, keeps, Keeps-set_context, Extends-refl,
}

pub Keeps-load8 : (p : ℕ) → Keeps (load8 p)
unfolding load8
Keeps-load8 p = Keeps-reads _

pub Keeps-load64 : (p : ℕ) → Keeps (load64 p)
unfolding load64
Keeps-load64 p = Keeps-reads _

IsOutside-cases : (p n a : ℕ) → IsOutside p n a ⊎ ((p ≤ a) × (a < p + n))
IsOutside-cases p n a = grind arith

put_bytes-bounded :
    (mem : Mem) (p : ℕ) (bs : List ℕ)
    → ((a : ℕ) → 2 ^ 64 ≤ a → mem a ≡ none)
    → IsMapped mem p (length bs)
    → (a : ℕ) → 2 ^ 64 ≤ a
    → put_bytes mem p bs a ≡ none
put_bytes-bounded mem p bs bounded mapped a h = elim (IsOutside-cases p (length bs) a) [
  | inl out ↦ rw (put_bytes-outside mem p bs a out) (bounded a h)
  | inr (u, v) ↦ absurd (mapped a u v (bounded a h))
]

pub Keeps-store_bytes : (p : ℕ) (bs : List ℕ) → Keeps (store_bytes p bs)
unfolding store_bytes
Keeps-store_bytes p bs = record { run = run }
  where
    run : (m : Machine) → WellFormed m → Ensures (Kept m) (store_bytes p bs m)
    run m w = elim (Option-cases (read_bytes m.mem p (length bs))) [
      | inl e ↦ rw (e, store_bytes) faults
      | inr (old, e) ↦
          rw (e, store_bytes)
            (returns (
              record {
                bounded = put_bytes-bounded m.mem p bs w.bounded (IsMapped-of_read m.mem _ p e);
                table = w.table;
              },
              record { mapped = put_bytes-ne-none m.mem p bs; context = (Evolves-refl m).context },
            ))
    ]

pub Keeps-store64 : (p v : ℕ) → Keeps (store64 p v)
unfolding store64
Keeps-store64 p v = Keeps-store_bytes p (le_bytes 8 v)

pub Keeps-memcpy : (dest src n : ℕ) → Keeps (memcpy dest src n)
unfolding memcpy
Keeps-memcpy dest src n =
    Keeps-when _ Keeps-undefined (Keeps-bind (Keeps-reads _) λ bs. Keeps-store_bytes dest bs)

-- What is read lies in the address space.
load8-below :
    (p : ℕ) (m : Machine) → WellFormed m → Ensures (λ b m'. Kept m b m' × (p < 2 ^ 64)) (load8 p m)
unfolding load8 reads
load8-below p m w = elim (Option-cases (m.mem p)) [
  | inl e ↦ rw (e, load8, reads) faults
  | inr (b, e) ↦ rw (e, load8, reads) (returns ((w, Evolves-refl m), ground (arith, w.bounded p)))
]

-- `fuel` reaches past the end of the address space, where nothing is mapped.
Keeps-c_string_loop : (fuel p : ℕ) → 0 < fuel → 2 ^ 64 < fuel + p → Keeps (c_string_loop fuel p)
unfolding c_string_loop ◌>>=◌
Keeps-c_string_loop zero p some_fuel h = absurd (omega arith)
Keeps-c_string_loop (suc fuel) p some_fuel h = record {
  run = λ m w. Runs.bind (load8-below p m w) λ b m' ((w', e), below).
      let rest = Keeps-c_string_loop fuel (p + 1) (omega arith) (omega arith) in
      Kept-then (Keeps-when (b == 0) (Keeps-pure []) (Keeps-bind rest λ s. Keeps-pure (b ∷ s))) w'
        e;
}

pub Keeps-c_string : (p : ℕ) → Keeps (c_string p)
unfolding c_string
Keeps-c_string p = Keeps-c_string_loop _ p (omega arith) (omega arith)

pub Keeps-strcmp_at : (text : List ℕ) (p : ℕ) → Keeps (strcmp_at p text)
unfolding strcmp_at
Keeps-strcmp_at [] p = search (keeps, Keeps-load8)
Keeps-strcmp_at (c ∷ text) p =
    Keeps-bind (Keeps-load8 p) λ b. Keeps-when _ (Keeps-strcmp_at text (p + 1)) (Keeps-pure false)

pub Keeps-add_mapping : (base len : ℕ) → base + len ≤ 2 ^ 64 → Keeps (add_mapping base len)
unfolding map_zero add_mapping
Keeps-add_mapping base len fits = record {
  run = λ m w. returns (
    record { bounded = λ a h. ground (arith, w.bounded a h); table = w.table },
    record { mapped = λ a h e. ground arith; context = (Evolves-refl m).context },
  );
}

pub Keeps-set_ptr : (f : MachContext → ℕ) → Keeps (set_context λ c. record c { ptr = f c })
Keeps-set_ptr f =
    Keeps-set_context _
      (λ c. record {
        memblock = refl;
        argc = refl;
        argv = refl;
        bit = refl;
        img_addr = λ _. refl;
        v_addr = λ _. refl;
        segments = Extends-refl _;
        b_list = Extends-refl _;
        d_list = Extends-refl _;
      })
      (λ c h. h)

pub ruleset keeps_commands = (
  keeps, Keeps-load8, Keeps-load64, Keeps-store_bytes, Keeps-store64, Keeps-memcpy, Keeps-c_string,
  Keeps-strcmp_at,
)
