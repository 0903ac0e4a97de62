-- ===== src/Segments/Alignment.antt =====
-- alignMemory (main.c) against its purpose: the least multiple of a power of two at or above.
use native.Mathlib.Nat.{one-le-pow, mod-lt, mod-eq_of_lt, div-add-mod', div-lt_iff_lt-mul}
use maloader.Common.{
  ℕ, zero, suc, ◌+◌, ◌-◌, ◌*◌, ◌/◌, ◌%◌, ◌^◌, ◌≤◌, ◌<◌, ◌≡◌, ap, ◌∙◌, sym, bit_and, arith,
}
use maloader.Common.Bits.{bit_and_shifted, bit_and_mask, two_pow-add}
use maloader.Machine.{sub64}
use maloader.Segments.{align_memory}

-- `q * a` is the least multiple of `a` that is not below `p`.
abbrev pub IsLeastMultiple : (p a q : ℕ) → Type 0
IsLeastMultiple p a q = (p ≤ q * a) × (q * a < p + a)

two_pow-split : (k : ℕ) → k ≤ 63 → 2 ^ (64 - k) * 2 ^ k ≡ 2 ^ 64
two_pow-split k small =
    let whole : 64 - k + k ≡ 64 = omega arith in two_pow-add (64 - k) k ∙ ap (λ n. 2 ^ n) whole

-- The mask as a shifted one.
mask-shifted : (a b : ℕ) → b * a ≡ 2 ^ 64 → 2 ^ 64 - 1 - (a - 1) ≡ (b - 1) * a
mask-shifted a zero e = absurd (omega arith)
mask-shifted zero (suc b) e = absurd (grind arith)
mask-shifted (suc a) (suc b) e = ground arith

clear_low :
    (k x : ℕ) → k ≤ 63 → x < 2 ^ 64 → bit_and x (2 ^ 64 - 1 - (2 ^ k - 1)) ≡ x / 2 ^ k * 2 ^ k
clear_low k x small fits =
    ap (bit_and x) (mask-shifted (2 ^ k) (2 ^ (64 - k)) (two_pow-split k small))
    ∙ ap (λ y. bit_and y ((2 ^ (64 - k) - 1) * 2 ^ k)) split
    ∙ bit_and_shifted k (x / 2 ^ k) (x % 2 ^ k) (2 ^ (64 - k) - 1) (mod-lt x positive)
    ∙ ap (λ y. y * 2 ^ k) (bit_and_mask (64 - k) (x / 2 ^ k) ∙ mod-eq_of_lt below)
  where
    positive : 0 < 2 ^ k
    positive = one-le-pow k 2 (omega arith)

    below : x / 2 ^ k < 2 ^ (64 - k)
    below = (div-lt_iff_lt-mul positive).1 (rw (two_pow-split k small) fits)

    split : x ≡ x / 2 ^ k * 2 ^ k + x % 2 ^ k
    split = sym (div-add-mod' x (2 ^ k))

-- An address is aligned to the least multiple of a power of two that is not below it, where the sum
-- of both stays within 64 bits.
pub align_memory-IsLeastMultiple :
    (pointer k : ℕ)
    → k ≤ 63
    → pointer + 2 ^ k ≤ 2 ^ 64
    → (q : ℕ) × (align_memory pointer (2 ^ k) ≡ q * 2 ^ k) × IsLeastMultiple pointer (2 ^ k) q
unfolding align_memory
align_memory-IsLeastMultiple pointer k small fits =
    let positive = one-le-pow k 2 (omega arith) in
    let mask : sub64 (2 ^ k) 1 ≡ 2 ^ k - 1 = omega arith in
    (
      (pointer + (2 ^ k - 1)) / 2 ^ k,
      ground (arith, mask, clear_low k (pointer + (2 ^ k - 1)) small (omega arith)),
      (ground arith, ground arith),
    )
