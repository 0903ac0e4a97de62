-- ===== src/Machine/Steady.antt =====
-- Commands that write no memory, and leave the file, the image and the current command where they are.
use maloader.Common.{
  ℕ, zero, suc, ◌+◌, ◌≡◌, refl, ◌∙◌, Bool, true, false, Option, Option-cases, inl, inr, List, [],
  ◌∷◌,
}
use maloader.Machine.{
  Mem, MachContext, Machine, Run, ok, fault, exited, out_of_fuel, and_then, Cmd, pure, undefined,
  reads, get_context, set_context, ◌>>=◌, when◌then◌else◌, load8, c_string_loop, c_string,
  strcmp_at,
}
use maloader.Machine.Spares.{Leaves}

abbrev pub IsSteady : Machine → Machine → Type 0
IsSteady m m' =
    (m'.mem ≡ m.mem)
    × (m'.context.memblock ≡ m.context.memblock)
    × (m'.context.ptr ≡ m.context.ptr)
    × (m'.context.img_addr ≡ m.context.img_addr)
    × (m'.context.v_addr ≡ m.context.v_addr)

IsSteady-trans : (m n o : Machine) → IsSteady m n → IsSteady n o → IsSteady m o
IsSteady-trans m n o (a, b, c, d, e) (a', b', c', d', e') = (a' ∙ a, b' ∙ b, c' ∙ c, d' ∙ d, e' ∙ e)

-- The runs of `c` that return are steady.
pub record Steady {A : Type 0} (c : Cmd A) : Type 0 where
  pub run : (m : Machine) → Leaves (λ _ m'. IsSteady m m') (c m)

Leaves-and_then :
    {A B : Type 0} (m : Machine) (r : Run A) (k : A → Cmd B)
    → Leaves (λ _ m'. IsSteady m m') r
    → ((x : A) → Steady (k x))
    → Leaves (λ _ m'. IsSteady m m') (and_then r k)
Leaves-and_then {B} m (ok x n) k same next = shift (k x n) ((next x).run n)
  where
    shift : (r : Run B) → Leaves (λ _ m'. IsSteady n m') r → Leaves (λ _ m'. IsSteady m m') r
    shift (ok y o) same' = IsSteady-trans m n o same same'
    shift fault q = tt
    shift exited q = tt
    shift out_of_fuel q = tt
Leaves-and_then m fault k same next = tt
Leaves-and_then m exited k same next = tt
Leaves-and_then m out_of_fuel k same next = tt

pub Steady-pure : {A : Type 0} (x : A) → Steady (pure x)
unfolding pure
Steady-pure x = record { run = λ m. (refl, refl, refl, refl, refl) }

pub Steady-bind :
    {A B : Type 0} {c : Cmd A} {k : A → Cmd B}
    → Steady c
    → ((x : A) → Steady (k x))
    → Steady (c >>= k)
unfolding ◌>>=◌
Steady-bind {c} {k} p q = record { run = λ m. Leaves-and_then m (c m) k (p.run m) q }

pub Steady-when :
    {A : Type 0} {c d : Cmd A} (b : Bool) → Steady c → Steady d → Steady (when b then c else d)
unfolding when◌then◌else◌
Steady-when true p q = p
Steady-when false p q = q

-- As Steady-when, where each branch may use the outcome of the test.
pub Steady-when_test :
    {A : Type 0} {c d : Cmd A} (b : Bool)
    → (b ≡ true → Steady c)
    → (b ≡ false → Steady d)
    → Steady (when b then c else d)
unfolding when◌then◌else◌
Steady-when_test true p q = p refl
Steady-when_test false p q = q refl

pub Steady-undefined : {A : Type 0} → Steady {A = A} undefined
unfolding undefined
Steady-undefined = record { run = λ m. tt }

pub Steady-out_of_fuel : {A : Type 0} → Steady {A = A} (λ _. out_of_fuel)
Steady-out_of_fuel = record { run = λ m. tt }

pub Steady-get_context : Steady get_context
unfolding get_context
Steady-get_context = record { run = λ m. (refl, refl, refl, refl, refl) }

pub Steady-set_context :
    (f : MachContext → MachContext)
    → ((c : MachContext)
        → ((f c).memblock ≡ c.memblock)
          × ((f c).ptr ≡ c.ptr)
          × ((f c).img_addr ≡ c.img_addr)
          × ((f c).v_addr ≡ c.v_addr))
    → Steady (set_context f)
unfolding set_context
Steady-set_context f same = record {
  run = λ m. let (a, b, c, d) = same m.context in (refl, a, b, c, d);
}

pub Steady-reads : {A : Type 0} (f : Mem → Option A) → Steady (reads f)
unfolding reads
Steady-reads f = record {
  run = λ m. elim (Option-cases (f m.mem)) [
    | inl e ↦ rw (e, reads) tt
    | inr (x, e) ↦ rw (e, reads) (refl, refl, refl, refl, refl)
  ];
}

pub Steady-load8 : (p : ℕ) → Steady (load8 p)
unfolding load8
Steady-load8 p = Steady-reads _

Steady-c_string_loop : (fuel p : ℕ) → Steady (c_string_loop fuel p)
unfolding c_string_loop
Steady-c_string_loop zero p = Steady-out_of_fuel
Steady-c_string_loop (suc fuel) p = Steady-bind (Steady-load8 p) λ b.
    Steady-when _ (Steady-pure [])
      (Steady-bind (Steady-c_string_loop fuel (p + 1)) λ s. Steady-pure _)

pub Steady-c_string : (p : ℕ) → Steady (c_string p)
unfolding c_string
Steady-c_string p = Steady-c_string_loop _ p

pub Steady-strcmp_at : (text : List ℕ) (p : ℕ) → Steady (strcmp_at p text)
unfolding strcmp_at
Steady-strcmp_at [] p = Steady-bind (Steady-load8 p) λ b. Steady-pure _
Steady-strcmp_at (c ∷ text) p =
    Steady-bind (Steady-load8 p)
      λ b. Steady-when _ (Steady-strcmp_at text (p + 1)) (Steady-pure false)

pub ruleset steady = (
  Steady-pure, Steady-bind, Steady-when, Steady-undefined, Steady-get_context, Steady-reads,
  Steady-load8, Steady-c_string, Steady-strcmp_at,
)
