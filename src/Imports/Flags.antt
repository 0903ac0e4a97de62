-- ===== src/Imports/Flags.antt =====
-- The flags of mmap as a loaded program gives them, and as the host has them (bind.c,
-- host_mmap_for_darwin), bit by bit.
use Prim.Native.Nat.{min, max}
use maloader.Common.{
  ℕ, zero, suc, ◌+◌, ◌-◌, ◌*◌, ◌/◌, ◌%◌, ◌^◌, ◌<◌, ◌≡◌, refl, ap, ◌∙◌, Bool, true, false,
  Bool-cases, ◌==◌, ◌&&◌, bit_and, bit_or, if◌then◌else◌, inl, inr, arith, eq_of_==, ne_of_==,
}
use maloader.Common.Bits.{bit_and_shifted, bit_and_mask}
use maloader.Common.Bits.Step.{bit_and_digit, bit_or_digit}
use maloader.Imports.{host_flags_of, darwin_map_anon, map_anonymous}

-- Bit `k` of a number.
unfoldable pub bit : (k a : ℕ) → ℕ
bit zero a = a % 2
bit (suc k) a = bit k (a / 2)

bit-bit_and : (k a b : ℕ) → bit k (bit_and a b) ≡ min (bit k a) (bit k b)
unfolding bit
bit-bit_and zero a b = omega (arith, bit_and_digit a b)
bit-bit_and (suc k) a b =
    let half : bit_and a b / 2 ≡ bit_and (a / 2) (b / 2) = omega (arith, bit_and_digit a b) in
    ap (bit k) half ∙ bit-bit_and k (a / 2) (b / 2)

bit-bit_or : (k a b : ℕ) → bit k (bit_or a b) ≡ max (bit k a) (bit k b)
unfolding bit
bit-bit_or zero a b = omega (arith, bit_or_digit a b)
bit-bit_or (suc k) a b =
    let half : bit_or a b / 2 ≡ bit_or (a / 2) (b / 2) = omega (arith, bit_or_digit a b) in
    ap (bit k) half ∙ bit-bit_or k (a / 2) (b / 2)

-- A test that holds of every number below `n`.
unfoldable all_below : (n : ℕ) → (ℕ → Bool) → Bool
all_below zero test = true
all_below (suc n) test = test n && all_below n test

all_below-at : (n k : ℕ) (test : ℕ → Bool) → all_below n test ≡ true → k < n → test k ≡ true
unfolding all_below
all_below-at zero k test holds below = absurd (omega arith)
all_below-at (suc n) k test holds below = elim (Bool-cases (k == n)) [
  | inl same ↦ ground (arith, ap test (eq_of_== k n same))
  | inr differs ↦ all_below-at n k test (ground arith) (ground (arith, ne_of_== differs))
]

mask-clears : (k : ℕ) → k < 32 → bit k (2 ^ 32 - 1 - darwin_map_anon) ≡ (if k == 12 then 0 else 1)
unfolding bit all_below
mask-clears k below = eq_of_== _ _ (
    all_below-at 32 k (λ j. bit j (2 ^ 32 - 1 - darwin_map_anon) == (if j == 12 then 0 else 1)) refl
      below)

anonymous-sets : (k : ℕ) → k < 32 → bit k map_anonymous ≡ (if k == 5 then 1 else 0)
unfolding bit all_below
anonymous-sets k below =
    eq_of_== _ _
      (all_below-at 32 k (λ j. bit j map_anonymous == (if j == 5 then 1 else 0)) refl below)

darwin-tests : (flags : ℕ) → bit_and flags darwin_map_anon ≡ bit 12 flags * 0x1000
unfolding bit
darwin-tests flags =
    let q = flags / 0x1000 in
    let r = flags % 0x1000 in
    let split : flags ≡ q * 2 ^ 12 + r = omega arith in
    let one : bit_and q (2 ^ 1 - 1) ≡ q % 2 = bit_and_mask 1 q in
    ap (λ n. bit_and n darwin_map_anon) split
    ∙ bit_and_shifted 12 q r 1 (omega arith)
    ∙ ap (λ n. n * 2 ^ 12) one
    ∙ omega arith

bit-small : (k a : ℕ) → bit k a < 2
unfolding bit
bit-small zero a = omega arith
bit-small (suc k) a = bit-small k (a / 2)

-- Flags with the Darwin flag for an anonymous mapping reach the host with that flag cleared and the
-- host's own one set, and with the other bits as they were; flags without it reach the host
-- unchanged. So it is with each of the 32 bits.
pub host_flags_of-bits :
    (k flags : ℕ)
    → k < 32
    → bit k (host_flags_of flags) ≡ (
        if bit 12 flags == 0
        then bit k flags
        else if k == 12
        then 0
        else if k == 5
        then 1
        else bit k flags)
unfolding host_flags_of
host_flags_of-bits k flags below = elim (Bool-cases (bit 12 flags == 0)) [
  | inl unset ↦
      let tested : (bit_and flags darwin_map_anon == 0) ≡ true =
        ap (λ n. n == 0) (darwin-tests flags) ∙ ground (arith, unset) in
      rw (tested, unset) refl
  | inr set ↦
      let tested : (bit_and flags darwin_map_anon == 0) ≡ false =
        ap (λ n. n == 0) (darwin-tests flags) ∙ ground (arith, set) in
      let cleared =
        bit-bit_and k flags (2 ^ 32 - 1 - darwin_map_anon)
        ∙ ap (min (bit k flags)) (mask-clears k below) in
      let whole =
        bit-bit_or k (bit_and flags (2 ^ 32 - 1 - darwin_map_anon)) map_anonymous
        ∙ ap (λ n. max n (bit k map_anonymous)) cleared
        ∙ ap (max (min (bit k flags) (if k == 12 then 0 else 1))) (anonymous-sets k below) in
      rw (tested, set) (whole ∙ ground (arith, bit-small k flags))
]
