-- ===== src/Bind/Operations.antt =====
-- The language of the bind opcodes (bind.c, bind_list_retriever): its operations, their encoding in
-- bytes, and the binds that a list of them stands for.
use maloader.Common.{ℕ, ◌+◌, ◌*◌, ◌^◌, ◌<◌, ◌≤◌, ◌≡◌, ◌≢◌, some, List, [], ◌∷◌, ◌++◌, length, All}
use maloader.Machine.{SegmentInfo, BindInfo}
use maloader.Uleb.RoundTrip.{IsUleb}
use maloader.Bind.{BindState, skip_offset}
use maloader.Bind.Slots.{slot_row, passed}

pub data Operation : Type 0 where
  done set_dylib_ordinal_imm set_dylib_special_imm set_type_imm : Operation
  set_dylib_ordinal set_addend : ℕ → Operation
  set_symbol : List ℕ → Operation
  set_segment_and_offset add_addr : ℕ → Operation
  do_bind do_bind_add_addr_imm_scaled : Operation
  do_bind_add_addr : ℕ → Operation
  do_bind_times_skipping : (count skip : ℕ) → Operation

-- The upper half of the operation's first byte.
unfoldable pub opcode : Operation → ℕ
opcode done = 0x0
opcode set_dylib_ordinal_imm = 0x1
opcode (set_dylib_ordinal n) = 0x2
opcode set_dylib_special_imm = 0x3
opcode (set_symbol text) = 0x4
opcode set_type_imm = 0x5
opcode (set_addend n) = 0x6
opcode (set_segment_and_offset n) = 0x7
opcode (add_addr n) = 0x8
opcode do_bind = 0x9
opcode (do_bind_add_addr n) = 0xA
opcode do_bind_add_addr_imm_scaled = 0xB
opcode (do_bind_times_skipping count skip) = 0xC

-- A 64-bit number in at most ten bytes.
abbrev pub IsNumber : ℕ → List ℕ → Type 0
IsNumber n bs = IsUleb n bs × (n < 2 ^ 64) × (length bs ≤ 10)

-- The bytes behind the first one.
unfoldable pub HasArguments : Operation → List ℕ → Type 0
HasArguments done bs = bs ≡ []
HasArguments set_dylib_ordinal_imm bs = bs ≡ []
HasArguments (set_dylib_ordinal n) bs = IsNumber n bs
HasArguments set_dylib_special_imm bs = bs ≡ []
HasArguments (set_symbol text) bs = All (λ b. b ≢ 0) text × (bs ≡ text ++ 0 ∷ [])
HasArguments set_type_imm bs = bs ≡ []
HasArguments (set_addend n) bs = IsNumber n bs
HasArguments (set_segment_and_offset n) bs = IsNumber n bs
HasArguments (add_addr n) bs = IsNumber n bs
HasArguments do_bind bs = bs ≡ []
HasArguments (do_bind_add_addr n) bs = IsNumber n bs
HasArguments do_bind_add_addr_imm_scaled bs = bs ≡ []
HasArguments (do_bind_times_skipping count skip) bs =
    (cs : List ℕ) × (ds : List ℕ) × IsNumber count cs × IsNumber skip ds × (bs ≡ cs ++ ds)

-- An operation with the lower half of its first byte, and with its further bytes.
pub record Instruction : Type 0 where
  pub operation : Operation
  pub immediate : ℕ
  pub arguments : List ℕ

abbrev pub IsInstruction : Instruction → Type 0
IsInstruction i = (i.immediate < 16) × HasArguments i.operation i.arguments

unfoldable pub bytes_of : List Instruction → List ℕ
unfolding opcode
bytes_of [] = []
bytes_of (i ∷ is) = (opcode i.operation * 16 + i.immediate) ∷ (i.arguments ++ bytes_of is)

-- The binds of one operation, for a parser that stands behind its first byte.
unfoldable pub binds_of_operation : List SegmentInfo → Operation → BindState → List BindInfo
unfolding slot_row
binds_of_operation segments do_bind s = slot_row segments 1 0 s
binds_of_operation segments (do_bind_add_addr n) s = slot_row segments 1 0 s
binds_of_operation segments do_bind_add_addr_imm_scaled s = slot_row segments 1 0 s
binds_of_operation segments (do_bind_times_skipping count skip) s = slot_row segments count skip s
binds_of_operation segments operation s = []

-- What else it changes.
unfoldable pub perform : Operation → (immediate : ℕ) → BindState → BindState
unfolding skip_offset
perform (set_symbol text) immediate s = record s { symbol_name = s.p }
perform (set_segment_and_offset n) immediate s = record s {
  segment_index = some immediate;
  segment_offset = n;
}
perform (add_addr n) immediate s = skip_offset n s
perform do_bind immediate s = skip_offset 8 s
perform (do_bind_add_addr n) immediate s = skip_offset n (skip_offset 8 s)
perform do_bind_add_addr_imm_scaled immediate s = skip_offset (8 + immediate * 8) s
perform (do_bind_times_skipping count skip) immediate s = passed count skip s
perform operation immediate s = s

-- The state behind a whole operation.
abbrev pub behind : (operation : Operation) (immediate len : ℕ) → BindState → BindState
behind operation immediate len s = record (perform operation immediate s) { p = s.p + len }

abbrev pub past_byte : BindState → BindState
past_byte s = record s { p = s.p + 1 }

-- The binds of a list of operations, one after the other.
unfoldable pub binds_of : List SegmentInfo → List Instruction → BindState → List BindInfo
unfolding binds_of_operation perform
binds_of segments [] s = []
binds_of segments (i ∷ is) s =
    binds_of_operation segments i.operation (past_byte s)
    ++ binds_of segments is (behind i.operation i.immediate (length i.arguments) (past_byte s))
