-- ===== src/Machine/Evolves.antt =====
-- What no command of the loader undoes: mapped memory stays mapped, the image stays where it is, and
-- the three tables only grow.
use mathlib.Core.List.{append-nil, append_assoc}
use maloader.Common.{
  ℕ, ◌^◌, ◌≤◌, ◌≡◌, ◌≢◌, refl, sym, ◌∙◌, ap, Bool, true, false, if◌then◌else◌, Option, none, List,
  [], ◌++◌, length, Option-cases, inl, inr,
}
use maloader.Machine.{
  Mem, MachContext, Machine, Cmd, pure, undefined, exit_failure, get_context, get_mem, ◌>>=◌,
  when◌then◌else◌, reads, set_context, mach_loader_max_segments,
}
use maloader.Machine.Runs
use maloader.Machine.Runs.{Ensures, returns, faults, exits}

-- `ys` is `xs` with more behind it.
abbrev pub Extends : {A : Type 0} → List A → List A → Type 0
Extends {A} xs ys = (rest : List A) × (ys ≡ xs ++ rest)

pub Extends-refl : {A : Type 0} (xs : List A) → Extends xs xs
Extends-refl xs = ([], sym (append-nil xs))

pub Extends-trans : {A : Type 0} (xs ys zs : List A) → Extends xs ys → Extends ys zs → Extends xs zs
Extends-trans xs ys zs (a, p) (b, q) = (a ++ b, q ∙ ap (λ l. l ++ b) p ∙ append_assoc xs a b)

pub record ContextEvolves (c c' : MachContext) : Type 0 where
  pub memblock : c'.memblock ≡ c.memblock
  pub argc : c'.argc ≡ c.argc
  pub argv : c'.argv ≡ c.argv
  pub bit : c'.bit ≡ c.bit
  pub img_addr : c.img_addr ≢ 0 → c'.img_addr ≡ c.img_addr
  pub v_addr : c.img_addr ≢ 0 → c'.v_addr ≡ c.v_addr
  pub segments : Extends c.segments c'.segments
  pub b_list : Extends c.b_list c'.b_list
  pub d_list : Extends c.d_list c'.d_list

pub record Evolves (m m' : Machine) : Type 0 where
  pub mapped : (a : ℕ) → m.mem a ≢ none → m'.mem a ≢ none
  pub context : ContextEvolves m.context m'.context

-- No byte lies outside the address space, and the segment table holds its entries.
pub record WellFormed (m : Machine) : Type 0 where
  pub bounded : (a : ℕ) → 2 ^ 64 ≤ a → m.mem a ≡ none
  pub table : length m.context.segments ≤ mach_loader_max_segments

abbrev pub Kept : {A : Type 0} → Machine → A → Machine → Type 0
Kept m _ m' = WellFormed m' × Evolves m m'

-- The runs of `c` from a well-formed machine end, keep it well-formed, and undo nothing.
pub record Keeps {A : Type 0} (c : Cmd A) : Type 0 where
  pub run : (m : Machine) → WellFormed m → Ensures (Kept m) (c m)

ContextEvolves-refl : (c : MachContext) → ContextEvolves c c
ContextEvolves-refl c = record {
  memblock = refl;
  argc = refl;
  argv = refl;
  bit = refl;
  img_addr = λ _. refl;
  v_addr = λ _. refl;
  segments = Extends-refl _;
  b_list = Extends-refl _;
  d_list = Extends-refl _;
}

ContextEvolves-trans :
    (a b c : MachContext) → ContextEvolves a b → ContextEvolves b c → ContextEvolves a c
ContextEvolves-trans a b c p q = record {
  memblock = q.memblock ∙ p.memblock;
  argc = q.argc ∙ p.argc;
  argv = q.argv ∙ p.argv;
  bit = q.bit ∙ p.bit;
  img_addr = λ ne. q.img_addr (λ z. ne (sym (p.img_addr ne) ∙ z)) ∙ p.img_addr ne;
  v_addr = λ ne. q.v_addr (λ z. ne (sym (p.img_addr ne) ∙ z)) ∙ p.v_addr ne;
  segments = Extends-trans _ _ _ p.segments q.segments;
  b_list = Extends-trans _ _ _ p.b_list q.b_list;
  d_list = Extends-trans _ _ _ p.d_list q.d_list;
}

pub Evolves-refl : (m : Machine) → Evolves m m
Evolves-refl m = record { mapped = λ a h. h; context = ContextEvolves-refl m.context }

pub Evolves-trans : {a b c : Machine} → Evolves a b → Evolves b c → Evolves a c
Evolves-trans p q = record {
  mapped = λ a h. q.mapped a (p.mapped a h);
  context = ContextEvolves-trans _ _ _ p.context q.context;
}

pub Keeps-pure : {A : Type 0} (a : A) → Keeps (pure a)
unfolding pure
Keeps-pure a = record { run = λ m w. returns (w, Evolves-refl m) }

-- What a run goes on with keeps the machine that it has come to.
pub Kept-then :
    {A : Type 0} {c : Cmd A} {m m' : Machine}
    → Keeps c
    → WellFormed m'
    → Evolves m m'
    → Ensures (Kept m) (c m')
Kept-then p w e = Runs.mono (p.run _ w) (λ b n (v, f). (v, Evolves-trans e f))

pub Keeps-bind :
    {A B : Type 0} {c : Cmd A} {k : A → Cmd B} → Keeps c → ((a : A) → Keeps (k a)) → Keeps (c >>= k)
unfolding ◌>>=◌
Keeps-bind p q = record {
  run = λ m w. Runs.bind (p.run m w) (λ a m' (w', e). Kept-then (q a) w' e);
}

pub Keeps-when :
    {A : Type 0} {c d : Cmd A} (b : Bool) → Keeps c → Keeps d → Keeps (when b then c else d)
unfolding when◌then◌else◌
Keeps-when true p q = p
Keeps-when false p q = q

-- As Keeps-when, where each branch may use the outcome of the test.
pub Keeps-when_test :
    {A : Type 0} {c d : Cmd A} (b : Bool)
    → (b ≡ true → Keeps c)
    → (b ≡ false → Keeps d)
    → Keeps (when b then c else d)
unfolding when◌then◌else◌
Keeps-when_test true p q = p refl
Keeps-when_test false p q = q refl

pub Keeps-get_context : Keeps get_context
unfolding get_context
Keeps-get_context = record { run = λ m w. returns (w, Evolves-refl m) }

pub Keeps-get_mem : Keeps get_mem
unfolding get_mem
Keeps-get_mem = record { run = λ m w. returns (w, Evolves-refl m) }

pub Keeps-undefined : {A : Type 0} → Keeps {A = A} undefined
unfolding undefined
Keeps-undefined = record { run = λ m w. faults }

pub Keeps-exit_failure : {A : Type 0} → Keeps {A = A} exit_failure
unfolding exit_failure
Keeps-exit_failure = record { run = λ m w. exits }

pub Keeps-reads : {A : Type 0} (f : Mem → Option A) → Keeps (reads f)
unfolding reads
Keeps-reads {A} f = record {
  run = λ m w. elim (Option-cases (f m.mem)) [
    | inl e ↦ rw (e, reads) faults
    | inr (a, e) ↦ rw (e, reads) (returns (w, Evolves-refl m))
  ];
}

-- A change of the context alone.
pub Keeps-set_context :
    (f : MachContext → MachContext)
    → ((c : MachContext) → ContextEvolves c (f c))
    → ((c : MachContext)
        → length c.segments ≤ mach_loader_max_segments
        → length (f c).segments ≤ mach_loader_max_segments)
    → Keeps (set_context f)
unfolding set_context
Keeps-set_context f evolves fits = record {
  run = λ m w. returns (
    record { bounded = w.bounded; table = fits m.context w.table },
    record { mapped = λ a h. h; context = evolves m.context },
  );
}

pub ruleset keeps = (
  Keeps-pure, Keeps-bind, Keeps-when, Keeps-get_context, Keeps-get_mem, Keeps-undefined,
  Keeps-exit_failure, Keeps-reads,
)
