-- ===== src/Examples/Numbers.antt =====
-- The theorems on ULEB128 numbers and on patterns at concrete bytes.
use maloader.Imports.Flags.{bit, host_flags_of-bits}
use maloader.Common.{ℕ, ◌≡◌, inr, refl, [], ◌∷◌, some, ap, ◌∙◌, arith, if◌then◌else◌, ◌==◌}
use maloader.Machine.{Machine, ok, read_bytes}
use maloader.Machine.Runs.{Ensures}
use maloader.Machine.Memory.{IsMapped-of_read, put_bytes-inside}
use maloader.Uleb.{read_uleb128}
use maloader.Uleb.Bounds.{IsBehind, read_uleb128-IsBehind}
use maloader.Uleb.RoundTrip.{IsUleb, last, more, read_uleb128-IsUleb}
use maloader.Imports.{mal_memset_pattern16, host_flags_of}
use maloader.Imports.Pattern.{painted, HasPattern, mal_memset_pattern16-painted}
use maloader.Examples.{machine_of, nothing_mapped}
use maloader.Examples.Files.{ascending, get_elem?-ascending}

abbrev numbers : Machine
numbers = machine_of 0x3000 (0xE5 ∷ 0x8E ∷ 0x26 ∷ 0 ∷ [])

encoded : IsUleb 624485 (0xE5 ∷ 0x8E ∷ 0x26 ∷ [])
encoded =
    more {b = 0x65} (omega arith) (more {b = 0x0E} (omega arith) (last (omega arith)) refl) refl

stored : read_bytes numbers.mem 0x3000 3 ≡ some (0xE5 ∷ 0x8E ∷ 0x26 ∷ [])
unfolding machine_of read_bytes
stored = refl

read_uleb128-IsUleb_example : read_uleb128 0x3000 0x3004 numbers ≡ ok (624485, 0x3003) numbers
read_uleb128-IsUleb_example =
    read_uleb128-IsUleb 624485 (0xE5 ∷ 0x8E ∷ 0x26 ∷ []) numbers 0x3000 0x3004 encoded (omega arith)
      (omega arith) stored (omega arith)

read_uleb128-IsBehind_example :
    Ensures (λ r m'. (m' ≡ numbers) × IsBehind 0x3000 0x3002 r) (read_uleb128 0x3000 0x3002 numbers)
read_uleb128-IsBehind_example = read_uleb128-IsBehind numbers 0x3000 0x3002

-- Sixteen bytes that count up from 0, and a block of four behind them.
abbrev block : Machine
block = machine_of 0x3000 (ascending 0 20)

abbrev pattern : ℕ → ℕ
pattern j = j

block-HasPattern : HasPattern block.mem 0x3000 pattern
unfolding machine_of
block-HasPattern j small =
    put_bytes-inside nothing_mapped 0x3000 (ascending 0 20) j (omega arith)
    ∙ get_elem?-ascending 0 20 j (omega arith)
    ∙ ap some (omega arith)

block-read : read_bytes block.mem 0x3010 4 ≡ some (16 ∷ 17 ∷ 18 ∷ 19 ∷ [])
unfolding machine_of read_bytes
block-read = refl

mal_memset_pattern16-painted_example :
    mal_memset_pattern16 0x3010 0x3000 4 block
    ≡ ok tt (record block { mem = painted block.mem 0x3010 0 4 pattern })
mal_memset_pattern16-painted_example =
    mal_memset_pattern16-painted 0x3010 0x3000 4 pattern block block-HasPattern
      (IsMapped-of_read block.mem 4 0x3010 block-read) (inr (omega arith))

-- MAP_ANON | MAP_PRIVATE of Darwin: bit 5 of what the host is given is set.
host_flags_of-bits_example : bit 5 (host_flags_of 0x1002) ≡ (
    if bit 12 0x1002 == 0
    then bit 5 0x1002
    else if 5 == 12
    then 0
    else if 5 == 5
    then 1
    else bit 5 0x1002)
host_flags_of-bits_example = host_flags_of-bits 5 0x1002 (omega arith)

anonymous_host : host_flags_of 0x1002 ≡ 0x22
unfolding host_flags_of
anonymous_host = refl
