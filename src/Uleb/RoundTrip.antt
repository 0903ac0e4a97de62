-- ===== src/Uleb/RoundTrip.antt =====
-- read_uleb128 (bind.c) reads every ULEB128 encoding of a 64-bit number.
use maloader.Common.{
  ℕ, zero, suc, ◌+◌, ◌-◌, ◌*◌, ◌%◌, ◌^◌, ◌≤◌, ◌<◌, ◌≡◌, ap, ◌∙◌, bit_and, arith, some, List, [],
  ◌∷◌, length,
}
use maloader.Common.Bits.{bit_and_shifted, bit_and_mask, bit_or_fields, two_pow-add}
use maloader.Machine.{Machine, ok, read_bytes, load8, ◌>>=◌}
use maloader.Machine.Memory.{read_bytes-cons}
use maloader.Uleb.{uleb_loop, read_uleb128}

-- `bs` encodes `n`: groups of seven bits, the lowest first, the high bit set on all but the last.
pub data IsUleb : ℕ → List ℕ → Type 0 where
  last : {n : ℕ} → n < 128 → IsUleb n (n ∷ [])
  more :
      {n b k : ℕ} {bs : List ℕ}
      → b < 128
      → IsUleb n bs
      → k ≡ b + 128 * n
      → IsUleb k ((b + 128) ∷ bs)

flag_of_more : (b : ℕ) → b < 128 → bit_and (b + 128) 0x80 ≡ 128
flag_of_more b h = ap (λ x. bit_and x 0x80) same ∙ bit_and_shifted 7 1 b 1 h
  where
    same : b + 128 ≡ 1 * 2 ^ 7 + b
    same = omega arith

flag_of_last : (b : ℕ) → b < 128 → bit_and b 0x80 ≡ 0
flag_of_last b h = ap (λ x. bit_and x 0x80) same ∙ bit_and_shifted 7 0 b 1 h
  where
    same : b ≡ 0 * 2 ^ 7 + b
    same = omega arith

bits_of : (b : ℕ) → bit_and b 0x7f ≡ b % 128
bits_of b = bit_and_mask 7 b

-- One round at a byte that is not the last, and at one that is.
round-more :
    (m : Machine) (fuel p end result bit b : ℕ)
    → m.mem p ≡ some (b + 128)
    → b < 128
    → p < end
    → bit < 64
    → result < 2 ^ bit
    → b * 2 ^ bit < 2 ^ 64
    → uleb_loop (suc fuel) p end result bit m
      ≡ uleb_loop fuel (p + 1) end (b * 2 ^ bit + result) (bit + 7) m
unfolding uleb_loop ◌>>=◌ load8
round-more m fuel p end result bit b stored small inside low room fits =
    ground (arith, stored, flag_of_more b small, bits_of (b + 128), bit_or_fields bit b result room)

round-last :
    (m : Machine) (fuel p end result bit b : ℕ)
    → m.mem p ≡ some b
    → b < 128
    → p < end
    → bit < 64
    → result < 2 ^ bit
    → b * 2 ^ bit < 2 ^ 64
    → uleb_loop (suc fuel) p end result bit m ≡ ok (b * 2 ^ bit + result, p + 1) m
unfolding uleb_loop ◌>>=◌ load8
round-last m fuel p end result bit b stored small inside low room fits =
    ground (arith, stored, flag_of_last b small, bits_of b, bit_or_fields bit b result room)

two_pow-add_seven : (bit : ℕ) → 2 ^ (bit + 7) ≡ 128 * 2 ^ bit
two_pow-add_seven bit = omega (arith, two_pow-add bit 7)

-- The value of a group and of what follows it, at a shift `t`.
group_value : (n b k t r : ℕ) → k ≡ b + 128 * n → n * (128 * t) + (b * t + r) ≡ k * t + r
group_value n b k t r e = rw e (omega arith)

group_room : (b t r : ℕ) → b < 128 → r < t → b * t + r < 128 * t
group_room b t r small room = grind arith

uleb_loop-IsUleb :
    {n : ℕ} {bs : List ℕ}
    → IsUleb n bs
    → (m : Machine) (fuel p end result bit : ℕ) → read_bytes m.mem p (length bs) ≡ some bs
    → p + length bs ≤ end
    → length bs ≤ fuel
    → result < 2 ^ bit
    → bit + 7 * length bs ≤ 70
    → n * 2 ^ bit + result < 2 ^ 64
    → uleb_loop fuel p end result bit m ≡ ok (n * 2 ^ bit + result, p + length bs) m
uleb_loop-IsUleb (last small) m zero p end result bit stored below fuelled room short fits =
    absurd (omega arith)
uleb_loop-IsUleb (more small e value) m zero p end result bit stored below fuelled room short fits =
    absurd (omega arith)
uleb_loop-IsUleb (last {n} small) m (suc fuel) p end result bit stored below fuelled room short
      fits =
    let (first, _) = read_bytes-cons m.mem 0 p stored in
    round-last m fuel p end result bit n first small (omega arith) (omega arith) room (omega arith)
uleb_loop-IsUleb (more {n} {b} {k} {bs} small e value) m (suc fuel) p end result bit stored below
      fuelled room short fits =
    let (first, rest) = read_bytes-cons m.mem (length bs) p stored in
    let shifted = two_pow-add_seven bit in
    let total : n * 2 ^ (bit + 7) + (b * 2 ^ bit + result) ≡ k * 2 ^ bit + result =
      rw shifted (group_value n b k (2 ^ bit) result value) in
    let fuller : b * 2 ^ bit + result < 2 ^ (bit + 7) =
      rw shifted (group_room b (2 ^ bit) result small room) in
    round-more m fuel p end result bit b first small (omega arith) (omega arith) room (omega arith)
    ∙ uleb_loop-IsUleb e m fuel (p + 1) end (b * 2 ^ bit + result) (bit + 7) rest (omega arith)
        (omega arith) fuller (omega arith) (omega arith)
    ∙ ground (arith, total)

-- Every encoding of a number below 2 ^ 64 in at most ten bytes, canonical or not, is read as that
-- number wherever its bytes lie before `end`; the pointer moves behind them, and nothing changes.
pub read_uleb128-IsUleb :
    (n : ℕ) (bs : List ℕ) (m : Machine) (p end : ℕ)
    → IsUleb n bs
    → n < 2 ^ 64
    → length bs ≤ 10
    → read_bytes m.mem p (length bs) ≡ some bs
    → p + length bs ≤ end
    → read_uleb128 p end m ≡ ok (n, p + length bs) m
unfolding read_uleb128
read_uleb128-IsUleb n bs m p end e fits short stored below =
    uleb_loop-IsUleb e m (end - p + 1) p end 0 0 stored below (omega arith) (omega arith)
      (omega arith) (omega arith)
    ∙ ground arith
