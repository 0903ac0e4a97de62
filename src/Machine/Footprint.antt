-- ===== src/Machine/Footprint.antt =====
-- Commands that write outside of given addresses only, and leave the image and the segments alone.
use maloader.Common.{
  ℕ, zero, suc, ◌+◌, ◌≡◌, refl, ◌∙◌, Bool, true, false, Option, Option-cases, inl, inr, List, [],
  length,
}
use maloader.Machine.{
  Mem, MachContext, Machine, Run, ok, fault, exited, out_of_fuel, and_then, Cmd, pure, reads,
  get_context, set_context, ◌>>=◌, when◌then◌else◌, load8, load64, c_string_loop, c_string,
  store_bytes, store64, read_bytes, le_bytes,
}
use maloader.Machine.Memory.{IsOutside, put_bytes-outside, length-le_bytes}
use maloader.Machine.Spares.{Leaves}

-- What `m'` has of `m`: the bytes of `Q`, the image and the segments.
abbrev pub SameOn : (Q : ℕ → Type 0) → Machine → Machine → Type 0
SameOn Q m m' =
    ((a : ℕ) → Q a → m'.mem a ≡ m.mem a)
    × (m'.context.img_addr ≡ m.context.img_addr)
    × (m'.context.segments ≡ m.context.segments)

pub SameOn-trans : (Q : ℕ → Type 0) (m n o : Machine) → SameOn Q m n → SameOn Q n o → SameOn Q m o
SameOn-trans Q m n o (b, i, s) (b', i', s') = ((λ a q. b' a q ∙ b a q), i' ∙ i, s' ∙ s)

-- The runs of `c` that return leave the bytes of `Q`, the image and the segments as they are.
pub record Preserves {A : Type 0} (Q : ℕ → Type 0) (c : Cmd A) : Type 0 where
  pub run : (m : Machine) → Leaves (λ _ m'. SameOn Q m m') (c m)

Leaves-and_then :
    {A B : Type 0} (Q : ℕ → Type 0) (m : Machine) (r : Run A) (k : A → Cmd B)
    → Leaves (λ _ m'. SameOn Q m m') r
    → ((x : A) → Preserves Q (k x))
    → Leaves (λ _ m'. SameOn Q m m') (and_then r k)
Leaves-and_then {B} Q m (ok x n) k same next = shift (k x n) ((next x).run n)
  where
    shift : (r : Run B) → Leaves (λ _ m'. SameOn Q n m') r → Leaves (λ _ m'. SameOn Q m m') r
    shift (ok y o) same' = SameOn-trans Q m n o same same'
    shift fault q = tt
    shift exited q = tt
    shift out_of_fuel q = tt
Leaves-and_then Q m fault k same next = tt
Leaves-and_then Q m exited k same next = tt
Leaves-and_then Q m out_of_fuel k same next = tt

-- Two runs that go on alike go on to the same end.
pub and_then-congr :
    {A B : Type 0} (P : A → Machine → Type 0) (r : Run A) (k k' : A → Cmd B)
    → Leaves P r
    → ((x : A) (m : Machine) → P x m → k x m ≡ k' x m)
    → and_then r k ≡ and_then r k'
and_then-congr P (ok x m) k k' p same = same x m p
and_then-congr P fault k k' p same = refl
and_then-congr P exited k k' p same = refl
and_then-congr P out_of_fuel k k' p same = refl

pub and_then_assoc :
    {A B C : Type 0} (r : Run A) (k : A → Cmd C) (k' : A → Cmd B) (l : B → Cmd C)
    → ((x : A) (m : Machine) → k x m ≡ and_then (k' x m) l)
    → and_then r k ≡ and_then (and_then r k') l
and_then_assoc (ok x m) k k' l same = same x m
and_then_assoc fault k k' l same = refl
and_then_assoc exited k k' l same = refl
and_then_assoc out_of_fuel k k' l same = refl

module _ {Q : ℕ → Type 0} where
  pub Preserves-pure : {A : Type 0} (x : A) → Preserves Q (pure x)
  unfolding pure
  Preserves-pure x = record { run = λ m. ((λ a q. refl), refl, refl) }

  pub Preserves-bind :
      {A B : Type 0} {c : Cmd A} {k : A → Cmd B}
      → Preserves Q c
      → ((x : A) → Preserves Q (k x))
      → Preserves Q (c >>= k)
  unfolding ◌>>=◌
  Preserves-bind {c} {k} p q = record { run = λ m. Leaves-and_then Q m (c m) k (p.run m) q }

  pub Preserves-when :
      {A : Type 0} {c d : Cmd A} (b : Bool)
      → Preserves Q c
      → Preserves Q d
      → Preserves Q (when b then c else d)
  unfolding when◌then◌else◌
  Preserves-when true p q = p
  Preserves-when false p q = q

  pub Preserves-get_context : Preserves Q get_context
  unfolding get_context
  Preserves-get_context = record { run = λ m. ((λ a q. refl), refl, refl) }

  pub Preserves-set_context :
      (f : MachContext → MachContext)
      → ((c : MachContext) → (f c).img_addr ≡ c.img_addr)
      → ((c : MachContext) → (f c).segments ≡ c.segments)
      → Preserves Q (set_context f)
  unfolding set_context
  Preserves-set_context f img segments = record {
    run = λ m. ((λ a q. refl), img m.context, segments m.context);
  }

  pub Preserves-reads : {A : Type 0} (f : Mem → Option A) → Preserves Q (reads f)
  unfolding reads
  Preserves-reads f = record {
    run = λ m. elim (Option-cases (f m.mem)) [
      | inl e ↦ rw (e, reads) tt
      | inr (x, e) ↦ rw (e, reads) ((λ a q. refl), refl, refl)
    ];
  }

  pub Preserves-load8 : (p : ℕ) → Preserves Q (load8 p)
  unfolding load8
  Preserves-load8 p = Preserves-reads _

  pub Preserves-load64 : (p : ℕ) → Preserves Q (load64 p)
  unfolding load64
  Preserves-load64 p = Preserves-reads _

  Preserves-c_string_loop : (fuel p : ℕ) → Preserves Q (c_string_loop fuel p)
  unfolding c_string_loop
  Preserves-c_string_loop zero p = record { run = λ m. tt }
  Preserves-c_string_loop (suc fuel) p = Preserves-bind (Preserves-load8 p) λ b.
      Preserves-when _ (Preserves-pure [])
        (Preserves-bind (Preserves-c_string_loop fuel (p + 1)) λ s. Preserves-pure _)

  pub Preserves-c_string : (p : ℕ) → Preserves Q (c_string p)
  unfolding c_string
  Preserves-c_string p = Preserves-c_string_loop _ p

  -- A store outside of `Q`.
  pub Preserves-store_bytes :
      (p : ℕ) (bs : List ℕ)
      → ((a : ℕ) → Q a → IsOutside p (length bs) a)
      → Preserves Q (store_bytes p bs)
  unfolding store_bytes
  Preserves-store_bytes p bs outside = record {
    run = λ m. elim (Option-cases (read_bytes m.mem p (length bs))) [
      | inl e ↦ rw (e, store_bytes) tt
      | inr (x, e) ↦
          rw (e, store_bytes) ((λ a q. put_bytes-outside m.mem p bs a (outside a q)), refl, refl)
    ];
  }

  pub Preserves-store64 : (p v : ℕ) → ((a : ℕ) → Q a → IsOutside p 8 a) → Preserves Q (store64 p v)
  unfolding store64
  Preserves-store64 p v outside =
      Preserves-store_bytes p (le_bytes 8 v) (λ a q. rw (length-le_bytes 8 v) (outside a q))

pub ruleset preserves = (
  Preserves-pure, Preserves-bind, Preserves-when, Preserves-get_context, Preserves-reads,
  Preserves-load8, Preserves-load64, Preserves-c_string,
)
