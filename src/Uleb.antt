-- ===== src/Uleb.antt =====
-- read_uleb128 (bind.c): unsigned numbers in groups of seven bits, lowest group first.

pub mod Bounds
pub mod RoundTrip
use maloader.Common.{ℕ, zero, suc, ◌+◌, ◌-◌, ◌*◌, ◌^◌, bit_and, bit_or, ◌==◌, ltb, if◌then◌else◌}
use maloader.Machine.{when◌then◌else◌, undefined, Cmd, out_of_fuel, pure, ◌>>=◌, load8, u64}

-- The number so far and the shift for the next byte. A shift of a uint64_t by 64 or more is undefined.
unfoldable pub uleb_loop : (fuel p end result bit : ℕ) → Cmd (ℕ × ℕ)
unfolding load8
uleb_loop zero p end result bit = λ _. out_of_fuel
uleb_loop (suc fuel) p end result bit =
    when ltb p end
    then (do
      byte ← load8 p
      when ltb 63 bit
          then undefined
          else when bit_and byte 0x80 == 0
          then pure (bit_or result (u64 (bit_and byte 0x7f * 2 ^ bit)), p + 1)
          else uleb_loop fuel (p + 1) end (bit_or result (u64 (bit_and byte 0x7f * 2 ^ bit)))
              (bit + 7))
    else pure (result, p)

-- The number, and the pointer behind it. Each round but the last takes a byte below `end`.
unfoldable pub read_uleb128 : (p end : ℕ) → Cmd (ℕ × ℕ)
unfolding uleb_loop
read_uleb128 p end = uleb_loop (end - p + 1) p end 0 0
