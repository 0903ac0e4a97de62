-- ===== src/Shims/Confined.antt =====
-- Where the calls of the loaded program write (bind.c).
use maloader.Host.{Host}
use maloader.Common.{ℕ, ◌≡◌, none, ◌≢◌}
use maloader.Machine.{Machine, Cmd}
use maloader.Machine.Memory.{IsOutside}
use maloader.Machine.Runs
use maloader.Machine.Spares.{Leaves}
use maloader.Shims.{Libc, Call, call_guard, call_memset_pattern16}

-- The byte at `a`, which is mapped, is none that the call may write: the block of memset_pattern16, or
-- the guard word.
abbrev pub IsUntouched : Libc → (a : ℕ) → Call → Type 0
IsUntouched libc a (call_memset_pattern16 dst pattern16 len) = IsOutside dst len a
IsUntouched libc a call_guard = IsOutside libc.guard_array 8 a
IsUntouched libc a _ = Unit {0}

-- The runs of `c` that return leave the byte at `a` as it is where it is mapped, and the image and the
-- table of segments.
abbrev Held : (a : ℕ) → Machine → Machine → Type 0
Held a m m' =
    (m'.mem a ≡ m.mem a)
    × (m'.context.img_addr ≡ m.context.img_addr)
    × (m'.context.segments ≡ m.context.segments)

record Holds {A : Type 0} (a : ℕ) (c : Cmd A) : Type 0 where
  run : (m : Machine) → m.mem a ≢ none → Leaves (λ _ m'. Held a m m') (c m)
