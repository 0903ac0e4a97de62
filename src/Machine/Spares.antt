-- ===== src/Machine/Spares.antt =====
-- Commands that leave one byte as it is while the image stays at `img`.
use maloader.Common.{
  ℕ, zero, suc, ◌+◌, ◌<◌, ◌≡◌, refl, ◌∙◌, Bool, true, false, Option, Option-cases, inl, inr, List,
  [], ◌∷◌, length,
}
use maloader.Machine.{
  Mem, MachContext, Machine, Run, ok, fault, exited, out_of_fuel, and_then, Cmd, pure, reads,
  get_context, set_context, ◌>>=◌, when◌then◌else◌, load8, c_string_loop, c_string, strcmp_at,
  store_bytes, store64, read_bytes, le_bytes,
}
use maloader.Machine.Memory.{IsOutside, put_bytes-outside}
use maloader.Machine.Runs.{Ensures, returns, faults, exits}

-- What holds of the result and the machine of a run that returns.
abbrev pub Leaves : {A : Type 0} → (A → Machine → Type 0) → Run A → Type 0
Leaves P (ok a m) = P a m
Leaves P fault = Unit {0}
Leaves P exited = Unit {0}
Leaves P out_of_fuel = Unit {0}

pub Leaves-of_Ensures :
    {A : Type 0} {P : A → Machine → Type 0} {r : Run A} → Ensures P r → Leaves P r
Leaves-of_Ensures (returns p) = p
Leaves-of_Ensures faults = tt
Leaves-of_Ensures exits = tt

pub Leaves-mono :
    {A : Type 0} (P Q : A → Machine → Type 0) (r : Run A)
    → Leaves P r
    → ((a : A) (m : Machine) → P a m → Q a m)
    → Leaves Q r
Leaves-mono P Q (ok a m) p weaken = weaken a m p
Leaves-mono P Q fault p weaken = tt
Leaves-mono P Q exited p weaken = tt
Leaves-mono P Q out_of_fuel p weaken = tt

pub Leaves-bind :
    {A B : Type 0} (P : A → Machine → Type 0) (Q : B → Machine → Type 0) (r : Run A) (k : A → Cmd B)
    → Leaves P r
    → ((a : A) (m : Machine) → P a m → Leaves Q (k a m))
    → Leaves Q (and_then r k)
Leaves-bind P Q (ok a m) k p next = next a m p
Leaves-bind P Q fault k p next = tt
Leaves-bind P Q exited k p next = tt
Leaves-bind P Q out_of_fuel k p next = tt

pub Ensures-with :
    {A : Type 0} {P Q : A → Machine → Type 0} {r : Run A}
    → Ensures P r
    → Leaves Q r
    → Ensures (λ a m. P a m × Q a m) r
Ensures-with (returns p) q = returns (p, q)
Ensures-with faults q = faults
Ensures-with exits q = exits

abbrev Same : {A : Type 0} → (img a : ℕ) → Machine → A → Machine → Type 0
Same img a m _ m' = (m'.context.img_addr ≡ img) × (m'.mem a ≡ m.mem a)

Leaves-and_then :
    {A B : Type 0} (img a : ℕ) (m : Machine) (r : Run A) (k : A → Cmd B)
    → Leaves (Same img a m) r
    → ((x : A) (n : Machine) → n.context.img_addr ≡ img → Leaves (Same img a n) (k x n))
    → Leaves (Same img a m) (and_then r k)
Leaves-and_then {B} img a m (ok x n) k (there, same) next = shift (k x n) (next x n there)
  where
    shift : (r : Run B) → Leaves (Same img a n) r → Leaves (Same img a m) r
    shift (ok y o) (there', same') = (there', same' ∙ same)
    shift fault q = tt
    shift exited q = tt
    shift out_of_fuel q = tt
Leaves-and_then img a m fault k q next = tt
Leaves-and_then img a m exited k q next = tt
Leaves-and_then img a m out_of_fuel k q next = tt

-- The runs of `c` with the image at `img` leave the image there and the byte at `a` as it is.
pub record Spares {A : Type 0} (img a : ℕ) (c : Cmd A) : Type 0 where
  pub run : (m : Machine) → m.context.img_addr ≡ img → Leaves (Same img a m) (c m)

module _ {img a : ℕ} where
  pub Spares-pure : {A : Type 0} (x : A) → Spares img a (pure x)
  unfolding pure
  Spares-pure x = record { run = λ m there. (there, refl) }

  pub Spares-bind :
      {A B : Type 0} {c : Cmd A} {k : A → Cmd B}
      → Spares img a c
      → ((x : A) → Spares img a (k x))
      → Spares img a (c >>= k)
  unfolding ◌>>=◌
  Spares-bind {c} {k} p q = record {
    run = λ m there. Leaves-and_then img a m (c m) k (p.run m there) (λ x n at. (q x).run n at);
  }

  pub Spares-when_test :
      {A : Type 0} {c d : Cmd A} (b : Bool)
      → (b ≡ true → Spares img a c)
      → (b ≡ false → Spares img a d)
      → Spares img a (when b then c else d)
  unfolding when◌then◌else◌
  Spares-when_test true p q = p refl
  Spares-when_test false p q = q refl

  pub Spares-when :
      {A : Type 0} {c d : Cmd A} (b : Bool)
      → Spares img a c
      → Spares img a d
      → Spares img a (when b then c else d)
  Spares-when b p q = Spares-when_test b (λ _. p) (λ _. q)

  -- What follows may use where the image is.
  pub Spares-get_context :
      {B : Type 0} {k : MachContext → Cmd B}
      → ((c : MachContext) → c.img_addr ≡ img → Spares img a (k c))
      → Spares img a (get_context >>= k)
  unfolding ◌>>=◌ get_context
  Spares-get_context q = record { run = λ m there. (q m.context there).run m there }

  pub Spares-set_context :
      (f : MachContext → MachContext)
      → ((c : MachContext) → (f c).img_addr ≡ c.img_addr)
      → Spares img a (set_context f)
  unfolding set_context
  Spares-set_context f stays = record { run = λ m there. (stays m.context ∙ there, refl) }

  pub Spares-reads : {A : Type 0} (f : Mem → Option A) → Spares img a (reads f)
  unfolding reads
  Spares-reads f = record {
    run = λ m there. elim (Option-cases (f m.mem)) [
      | inl e ↦ rw (e, reads) tt
      | inr (x, e) ↦ rw (e, reads) (there, refl)
    ];
  }

  pub Spares-load8 : (p : ℕ) → Spares img a (load8 p)
  unfolding load8
  Spares-load8 p = Spares-reads _

  Spares-c_string_loop : (fuel p : ℕ) → Spares img a (c_string_loop fuel p)
  unfolding c_string_loop
  Spares-c_string_loop zero p = record { run = λ m there. tt }
  Spares-c_string_loop (suc fuel) p = Spares-bind (Spares-load8 p) λ b.
      Spares-when _ (Spares-pure [])
        (Spares-bind (Spares-c_string_loop fuel (p + 1)) λ s. Spares-pure _)

  pub Spares-c_string : (p : ℕ) → Spares img a (c_string p)
  unfolding c_string
  Spares-c_string p = Spares-c_string_loop _ p

  pub Spares-strcmp_at : (text : List ℕ) (p : ℕ) → Spares img a (strcmp_at p text)
  unfolding strcmp_at
  Spares-strcmp_at [] p = Spares-bind (Spares-load8 p) λ b. Spares-pure _
  Spares-strcmp_at (c ∷ text) p =
      Spares-bind (Spares-load8 p)
        λ b. Spares-when _ (Spares-strcmp_at text (p + 1)) (Spares-pure false)

  Spares-store_bytes :
      (p : ℕ) (bs : List ℕ) → IsOutside p (length bs) a → Spares img a (store_bytes p bs)
  unfolding store_bytes
  Spares-store_bytes p bs outside = record {
    run = λ m there. elim (Option-cases (read_bytes m.mem p (length bs))) [
      | inl e ↦ rw (e, store_bytes) tt
      | inr (x, e) ↦ rw (e, store_bytes) (there, put_bytes-outside m.mem p bs a outside)
    ];
  }

  pub Spares-store64 : (p v : ℕ) → a < p → Spares img a (store64 p v)
  unfolding store64
  Spares-store64 p v below = Spares-store_bytes p (le_bytes 8 v) (inl below)
