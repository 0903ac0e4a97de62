-- ===== src/Formats/Optional.antt =====
-- Reads that may fail, one after the other.
use maloader.Common.{ℕ, ◌+◌, Option, none, some, List}
use maloader.Machine.{Mem, read_le, read_bytes}

infixl 5 ◌>>=◌
abbrev pub ◌>>=◌ : {A B : Type 0} → Option A → (A → Option B) → Option B
none >>= k = none
some a >>= k = k a

-- The fields at an offset from the structure's address.
abbrev pub byte_at : Mem → ℕ → ℕ → Option ℕ
byte_at mem p off = read_le 1 mem (p + off)

abbrev pub u16_at : Mem → ℕ → ℕ → Option ℕ
u16_at mem p off = read_le 2 mem (p + off)

abbrev pub u32_at : Mem → ℕ → ℕ → Option ℕ
u32_at mem p off = read_le 4 mem (p + off)

abbrev pub u64_at : Mem → ℕ → ℕ → Option ℕ
u64_at mem p off = read_le 8 mem (p + off)

abbrev pub chars_at : Mem → ℕ → ℕ → Option (List ℕ)
chars_at mem p off = read_bytes mem (p + off) 16
