-- ===== src/Machine.antt =====
-- The machine that the loader runs on: one flat address space of bytes, the loader's context
-- (`mach_context` of machctrl.h, `bind_info` and `bind_list` of bind.h) and the two cached handles of
-- bind.c. A C function is a command: it returns a value and a new machine, or it stops.
pub mod Memory
pub mod Stores
pub mod Runs
pub mod Results
pub mod Yields
pub mod Commands
pub mod Evolves
pub mod Ends
pub mod Footprint
pub mod Steady
pub mod Windows
pub mod Spares
use maloader.Common.{
  ℕ, zero, suc, ◌+◌, ◌-◌, ◌*◌, ◌/◌, ◌%◌, ◌^◌, ◌==◌, ltb, leb, if◌then◌else◌, Bool, true, false,
  Option, none, some, List, [], ◌∷◌, length, get_elem?, ◌&&◌,
}

-- An address that is not mapped has no byte.
abbrev pub Mem : Type 0
Mem = ℕ → Option ℕ

-- The bytes `bs` from address `p` on, over what `mem` holds.
unfoldable pub put_bytes : Mem → ℕ → List ℕ → Mem
put_bytes mem p bs a =
    if ltb a p then mem a else elim (get_elem? bs (a - p)) [ none ↦ mem a | some b ↦ some b ]

-- A fresh anonymous mapping reads as zero.
unfoldable pub map_zero : Mem → ℕ → ℕ → Mem
map_zero mem base len a = if leb base a && ltb a (base + len) then some 0 else mem a

unfoldable pub read_bytes : Mem → ℕ → ℕ → Option (List ℕ)
read_bytes mem p zero = some []
read_bytes mem p (suc n) = elim (mem p) [
  | none ↦ none
  | some b ↦ elim (read_bytes mem (p + 1) n) [ none ↦ none | some bs ↦ some (b ∷ bs) ]
]

-- Little-endian numbers of `n` bytes.
unfoldable pub le_bytes : ℕ → ℕ → List ℕ
le_bytes zero v = []
le_bytes (suc n) v = v % 256 ∷ le_bytes n (v / 256)

unfoldable pub of_le_bytes : List ℕ → ℕ
of_le_bytes [] = 0
of_le_bytes (b ∷ bs) = b + 256 * of_le_bytes bs

unfoldable pub read_le : ℕ → Mem → ℕ → Option ℕ
unfolding read_bytes of_le_bytes
read_le n mem p = elim (read_bytes mem p n) [ none ↦ none | some bs ↦ some (of_le_bytes bs) ]

-- Integer types of the source.
abbrev pub u16 : ℕ → ℕ
u16 x = x % 2 ^ 16

abbrev pub u32 : ℕ → ℕ
u32 x = x % 2 ^ 32

abbrev pub u64 : ℕ → ℕ
u64 x = x % 2 ^ 64

-- `a - b` on uint64_t, which wraps.
abbrev pub sub64 : ℕ → ℕ → ℕ
sub64 a b = (a + 2 ^ 64 - b) % 2 ^ 64

pub record SegmentInfo : Type 0 where
  pub segname : List ℕ
  pub vmaddr : ℕ
  pub vmsize : ℕ
  pub mapped_addr : ℕ

-- `func_name` is the address of a text in the mapped file.
pub record BindInfo : Type 0 where
  pub func_name : ℕ
  pub address : ℕ

-- A library's name lies in the mapped file, or is a text of the program's own.
pub data DylibName : Type 0 where
  in_file : ℕ → DylibName
  literal : List ℕ → DylibName

abbrev pub mach_loader_max_segments : ℕ
mach_loader_max_segments = 32

-- Pointers are numbers, and NULL is 0. Each counted array is a list.
pub record MachContext : Type 0 where
  pub memblock : ℕ
  pub ptr : ℕ
  pub img_addr : ℕ
  pub v_addr : ℕ
  pub entry_point : ℕ
  pub b_list : List BindInfo
  pub d_list : List DylibName
  pub segments : List SegmentInfo
  pub chained_rebase_count : ℕ
  pub chained_bind_count : ℕ
  pub chained_unresolved_bind_count : ℕ
  pub argc : ℕ
  pub argv : ℕ
  pub bit : ℕ

pub record Machine : Type 0 where
  pub mem : Mem
  pub context : MachContext
  pub libc_handle : ℕ
  pub libm_handle : ℕ

-- `fault` is an access to an address that is not mapped, or another undefined behaviour.
-- `exited` is `exit(-1)`.
pub data Run (A : Type 0) : Type 0 where
  ok : A → Machine → Run A
  fault exited out_of_fuel : Run A

abbrev pub Cmd : Type 0 → Type 0
Cmd A = Machine → Run A

unfoldable pub pure : {A : Type 0} → A → Cmd A
pure = ok

-- Undefined behaviour, and `exit(-1)`.
unfoldable pub undefined : {A : Type 0} → Cmd A
undefined m = fault

unfoldable pub exit_failure : {A : Type 0} → Cmd A
exit_failure m = exited

-- A read that does not change the machine; `none` is a fault.
unfoldable pub reads : {A : Type 0} → (Mem → Option A) → Cmd A
reads f m = elim (f m.mem) [ none ↦ fault | some a ↦ ok a m ]

unfoldable pub get_context : Cmd MachContext
get_context m = ok m.context m

unfoldable pub set_context : (MachContext → MachContext) → Cmd (Unit {0})
set_context f m = ok tt (record m { context = f m.context })

unfoldable pub get_mem : Cmd Mem
get_mem m = ok m.mem m

-- A fresh anonymous mapping.
unfoldable pub add_mapping : (base len : ℕ) → Cmd (Unit {0})
add_mapping base len m = ok tt (record m { mem = map_zero m.mem base len })

-- A branch of a command. It is shut, so that the branches stay in sight.
infix 1 when◌then◌else◌
unfoldable pub when◌then◌else◌ : {A : Type 0} → Bool → Cmd A → Cmd A → Cmd A
when true then c else d = c
when false then c else d = d

module _ {A B : Type 0} where
  abbrev pub and_then : Run A → (A → Cmd B) → Run B
  and_then (ok a m) k = k a m
  and_then fault k = fault
  and_then exited k = exited
  and_then out_of_fuel k = out_of_fuel

  infixl 5 ◌>>=◌ ◌>>◌
  -- Opening this opens the elementary commands above too.
  unfoldable pub ◌>>=◌ : Cmd A → (A → Cmd B) → Cmd B
  unfolding pure undefined exit_failure reads get_context set_context get_mem add_mapping
      when◌then◌else◌
  c >>= k = λ m. and_then (c m) k

  abbrev pub ◌>>◌ : Cmd A → Cmd B → Cmd B
  c >> d = c >>= λ _. d

abbrev pub unit : Cmd (Unit {0})
unit = pure tt

-- `context->ptr += n`
abbrev pub advance_ptr : ℕ → Cmd (Unit {0})
advance_ptr n = set_context λ c. record c { ptr = u64 (c.ptr + n) }

-- The `int` results 0 and -1.
pub data Status : Type 0 where
  success failure : Status

unfoldable pub load8 : ℕ → Cmd ℕ
load8 p = reads λ mem. mem p

unfoldable pub load64 : ℕ → Cmd ℕ
unfolding read_le
load64 p = reads λ mem. read_le 8 mem p

-- A write where every byte is mapped.
unfoldable pub store_bytes : ℕ → List ℕ → Cmd (Unit {0})
unfolding read_bytes put_bytes
store_bytes p bs m = elim (read_bytes m.mem p (length bs)) [
  | none ↦ fault
  | some _ ↦ ok tt (record m { mem = put_bytes m.mem p bs })
]

unfoldable pub store64 : ℕ → ℕ → Cmd (Unit {0})
unfolding store_bytes le_bytes
store64 p v = store_bytes p (le_bytes 8 v)

-- Regions that overlap are undefined behaviour, and fault.
unfoldable pub memcpy : (dest src n : ℕ) → Cmd (Unit {0})
unfolding store_bytes
memcpy dest src n =
    when ltb dest (src + n) && ltb src (dest + n)
    then undefined
    else (do bs ← reads λ mem. read_bytes mem src n; store_bytes dest bs)

-- The text at an address, up to its NUL. Addresses end at 2 ^ 64, so that many rounds are enough.
unfoldable pub c_string_loop : ℕ → ℕ → Cmd (List ℕ)
unfolding load8
c_string_loop zero p = λ _. out_of_fuel
c_string_loop (suc fuel) p = do
  b ← load8 p
  when b == 0 then pure [] else (do s ← c_string_loop fuel (p + 1); pure (b ∷ s))

abbrev pub address_space : ℕ
address_space = 2 ^ 64

unfoldable pub c_string : ℕ → Cmd (List ℕ)
unfolding c_string_loop
c_string p = c_string_loop (address_space - p + 1) p

-- `!strcmp(p, text)`, which reads no further than the first difference.
unfoldable pub strcmp_at : ℕ → List ℕ → Cmd Bool
unfolding load8
strcmp_at p [] = do b ← load8 p; pure (b == 0)
strcmp_at p (c ∷ text) = do b ← load8 p; when b == c then strcmp_at (p + 1) text else pure false

-- The text in a `char` array: its bytes up to a NUL.
unfoldable pub until_nul : List ℕ → List ℕ
until_nul [] = []
until_nul (b ∷ bs) = if b == 0 then [] else b ∷ until_nul bs

unfoldable pub text_eq : List ℕ → List ℕ → Bool
text_eq [] [] = true
text_eq [] (c ∷ cs) = false
text_eq (b ∷ bs) [] = false
text_eq (b ∷ bs) (c ∷ cs) = b == c && text_eq bs cs
