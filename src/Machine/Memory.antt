-- ===== src/Machine/Memory.antt =====
-- Laws of the bytes in memory: what a write changes, what a read depends on, little-endian numbers.
use maloader.Common.{
  ℕ, zero, suc, ◌+◌, ◌-◌, ◌/◌, ◌^◌, ◌≤◌, ◌<◌, ◌≡◌, ◌≢◌, ◌⊎◌, inl, inr, refl, ap, ◌∙◌, none, some,
  List, [], ◌∷◌, length, get_elem?, get_elem?-none, get_elem?-some, arith, Option-cases, ◌%◌,
  Bool-cases, ltb,
}
use native.Mathlib.Nat.{pow-suc}
use maloader.Machine.{Mem, put_bytes, read_bytes, le_bytes, of_le_bytes, read_le}

-- Each of the `n` addresses from `p` on is mapped.
abbrev pub IsMapped : Mem → ℕ → ℕ → Type 0
IsMapped mem p n = (a : ℕ) → p ≤ a → a < p + n → mem a ≢ none

-- `a` lies outside the `n` addresses from `p` on.
abbrev pub IsOutside : ℕ → ℕ → ℕ → Type 0
IsOutside p n a = (a < p) ⊎ (p + n ≤ a)

pub IsOutside-empty : (p n a : ℕ) → n ≡ 0 → IsOutside p n a
IsOutside-empty p n a empty = elim (Bool-cases (ltb a p)) [
  | inl below ↦ inl (ground arith)
  | inr above ↦ inr (ground arith)
]

pub put_bytes-outside :
    (mem : Mem) (p : ℕ) (bs : List ℕ) (a : ℕ)
    → IsOutside p (length bs) a
    → put_bytes mem p bs a ≡ mem a
unfolding put_bytes
put_bytes-outside mem p bs a h = ground (arith, get_elem?-none bs (a - p))

pub put_bytes-inside :
    (mem : Mem) (p : ℕ) (bs : List ℕ) (i : ℕ)
    → i < length bs
    → put_bytes mem p bs (p + i) ≡ get_elem? bs i
unfolding put_bytes
put_bytes-inside mem p bs i h =
    let (b, e) = get_elem?-some bs i h in
    let same : p + i - p ≡ i = omega arith in rw (same, e) (ground arith)

pub put_bytes-ne-none :
    (mem : Mem) (p : ℕ) (bs : List ℕ) (a : ℕ) → mem a ≢ none → put_bytes mem p bs a ≢ none
unfolding put_bytes
put_bytes-ne-none mem p bs a h e = ground arith

pub read_bytes-congr :
    (mem mem' : Mem) (n p : ℕ)
    → ((a : ℕ) → p ≤ a → a < p + n → mem a ≡ mem' a)
    → read_bytes mem p n ≡ read_bytes mem' p n
unfolding read_bytes
read_bytes-congr mem mem' zero p h = refl
read_bytes-congr mem mem' (suc n) p h = ground (
  arith,
  h p (omega arith) (omega arith),
  read_bytes-congr mem mem' n (p + 1) (λ a u v. h a (omega arith) (omega arith)),
)

-- A read of bytes that a write spares.
pub read_bytes-put_bytes_apart :
    (mem : Mem) (q : ℕ) (bs : List ℕ) (p n : ℕ)
    → (p + n ≤ q) ⊎ (q + length bs ≤ p)
    → read_bytes (put_bytes mem q bs) p n ≡ read_bytes mem p n
read_bytes-put_bytes_apart mem q bs p n apart =
    read_bytes-congr _ mem n p (λ a u v. put_bytes-outside mem q bs a (side a u v apart))
  where
    side :
        (a : ℕ) → p ≤ a → a < p + n → (p + n ≤ q) ⊎ (q + length bs ≤ p) → IsOutside q (length bs) a
    side a u v (inl h) = inl (omega arith)
    side a u v (inr h) = inr (omega arith)

read_bytes-pointwise :
    (mem : Mem) (bs : List ℕ) (p : ℕ)
    → ((i : ℕ) → i < length bs → mem (p + i) ≡ get_elem? bs i)
    → read_bytes mem p (length bs) ≡ some bs
unfolding read_bytes
read_bytes-pointwise mem [] p h = refl
read_bytes-pointwise mem (b ∷ bs) p h =
    let first : mem p ≡ some b = ap mem (omega arith) ∙ h 0 (omega arith) in
    ground (
      arith,
      first,
      read_bytes-pointwise mem bs (p + 1) (λ i lt. ap mem (omega arith) ∙ h (suc i) (omega arith)),
    )

pub read_bytes-put_bytes :
    (mem : Mem) (p : ℕ) (bs : List ℕ) → read_bytes (put_bytes mem p bs) p (length bs) ≡ some bs
read_bytes-put_bytes mem p bs = read_bytes-pointwise _ bs p (λ i lt. put_bytes-inside mem p bs i lt)

pub read_bytes-of_mapped :
    (mem : Mem) (n p : ℕ) → IsMapped mem p n → (bs : List ℕ) × (read_bytes mem p n ≡ some bs)
unfolding read_bytes
read_bytes-of_mapped mem zero p h = ([], refl)
read_bytes-of_mapped mem (suc n) p h = elim (Option-cases (mem p)) [
  | inl e ↦ absurd (h p (omega arith) (omega arith) e)
  | inr (b, e) ↦
      let (bs, r) = read_bytes-of_mapped mem n (p + 1) (λ a u v. h a (omega arith) (omega arith)) in
      (b ∷ bs, ground arith)
]

-- A read that succeeds takes its first byte and reads on.
pub read_bytes-suc :
    (mem : Mem) (n p : ℕ) {bs : List ℕ}
    → read_bytes mem p (suc n) ≡ some bs
    → (b : ℕ) × (cs : List ℕ) × (mem p ≡ some b)
      × (read_bytes mem (p + 1) n ≡ some cs)
      × (bs ≡ b ∷ cs)
unfolding read_bytes
read_bytes-suc mem n p e = elim (Option-cases (mem p)) [
  | inl x ↦ absurd (ground arith)
  | inr (b, x) ↦ elim (Option-cases (read_bytes mem (p + 1) n)) [
    | inl y ↦ absurd (ground arith)
    | inr (cs, y) ↦ (b, cs, x, y, ground arith)
  ]
]

pub read_bytes-cons :
    (mem : Mem) (n p : ℕ) {b : ℕ} {bs : List ℕ}
    → read_bytes mem p (suc n) ≡ some (b ∷ bs)
    → (mem p ≡ some b) × (read_bytes mem (p + 1) n ≡ some bs)
read_bytes-cons mem n p e =
    let (c, cs, x, y, z) = read_bytes-suc mem n p e in (ground arith, ground arith)

le-cases : (p a : ℕ) → p ≤ a → (p ≡ a) ⊎ (p + 1 ≤ a)
le-cases p a u = grind arith

pub IsMapped-of_read :
    (mem : Mem) (n p : ℕ) {bs : List ℕ} → read_bytes mem p n ≡ some bs → IsMapped mem p n
IsMapped-of_read mem zero p e a u v = absurd (omega arith)
IsMapped-of_read mem (suc n) p e a u v =
    let (b, cs, x, y, _) = read_bytes-suc mem n p e in
    elim (le-cases p a u) [
      | inl same ↦ λ q. cc (ap mem same)
      | inr more ↦ IsMapped-of_read mem n (p + 1) y a more (omega arith)
    ]

pub length-read_bytes :
    (mem : Mem) (n p : ℕ) {bs : List ℕ} → read_bytes mem p n ≡ some bs → length bs ≡ n
length-read_bytes mem zero p e = unfold read_bytes in ground arith
length-read_bytes mem (suc n) p e =
    let (b, cs, x, y, z) = read_bytes-suc mem n p e in
    rw z (ap suc (length-read_bytes mem n (p + 1) y))

pub length-le_bytes : (n v : ℕ) → length (le_bytes n v) ≡ n
unfolding le_bytes
length-le_bytes zero v = refl
length-le_bytes (suc n) v = ap suc (length-le_bytes n (v / 256))

of_le_bytes-le_bytes : (n v : ℕ) → v < 256 ^ n → of_le_bytes (le_bytes n v) ≡ v
unfolding le_bytes of_le_bytes
of_le_bytes-le_bytes zero v h = omega arith
of_le_bytes-le_bytes (suc n) v h =
    omega (arith, of_le_bytes-le_bytes n (v / 256) (omega (arith, pow-suc 256 n)))

-- A number written and read again.
pub read_le-put_bytes :
    (mem : Mem) (p v : ℕ) → v < 2 ^ 64 → read_le 8 (put_bytes mem p (le_bytes 8 v)) p ≡ some v
unfolding read_le
read_le-put_bytes mem p v h =
    let r : read_bytes (put_bytes mem p (le_bytes 8 v)) p 8 ≡ some (le_bytes 8 v) =
      rw (length-le_bytes 8 v) at (read_bytes-put_bytes mem p (le_bytes 8 v)) in
    rw (read_le, r) (ap some (of_le_bytes-le_bytes 8 v h))

pub read_le-put_bytes_apart :
    (n : ℕ) (mem : Mem) (q : ℕ) (bs : List ℕ) (p : ℕ)
    → (p + n ≤ q) ⊎ (q + length bs ≤ p)
    → read_le n (put_bytes mem q bs) p ≡ read_le n mem p
unfolding read_le
read_le-put_bytes_apart n mem q bs p apart =
    rw (read_le, read_bytes-put_bytes_apart mem q bs p n apart)

pub read_le-of_mapped :
    (n : ℕ) (mem : Mem) (p : ℕ) → IsMapped mem p n → (v : ℕ) × (read_le n mem p ≡ some v)
unfolding read_le
read_le-of_mapped n mem p mapped =
    let (bs, e) = read_bytes-of_mapped mem n p mapped in (of_le_bytes bs, rw (read_le, e) refl)

-- A number written and read again, where it may not fit.
pub read_le-put_bytes_wraps :
    (mem : Mem) (p v : ℕ) → read_le 8 (put_bytes mem p (le_bytes 8 v)) p ≡ some (v % 2 ^ 64)
unfolding read_le of_le_bytes le_bytes
read_le-put_bytes_wraps mem p v =
    let r : read_bytes (put_bytes mem p (le_bytes 8 v)) p 8 ≡ some (le_bytes 8 v) =
      read_bytes-put_bytes mem p (le_bytes 8 v) in
    rw (read_le, r) (ap some (omega arith))

pub read_le-congr :
    (n : ℕ) (mem mem' : Mem) (p : ℕ)
    → ((a : ℕ) → p ≤ a → a < p + n → mem a ≡ mem' a)
    → read_le n mem p ≡ read_le n mem' p
unfolding read_le
read_le-congr n mem mem' p same = rw (read_le, read_bytes-congr mem mem' n p same) refl
