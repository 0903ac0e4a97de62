-- ===== src/Bind.antt =====
-- The bind opcodes of bind.c (append_bind_info, bind_address_for_segment_offset and
-- bind_list_retriever), and do_bind, which stores the addresses into the image.

pub mod Evolution
pub mod Slots
pub mod Operations
pub mod Arguments
pub mod Steps
pub mod Programs
pub mod Guards
pub mod Named
pub mod Bindable
pub mod Libraries
pub mod Bound
use maloader.Common.{
  ℕ, zero, suc, ◌+◌, ◌-◌, ◌*◌, bit_and, ◌==◌, ltb, leb, if◌then◌else◌, Option, none, some, List, [],
  ◌∷◌, ◌++◌, codes, get_elem?, length,
}
use maloader.Machine.{
  when◌then◌else◌, MachContext, SegmentInfo, BindInfo, DylibName, in_file, literal, Cmd,
  out_of_fuel, pure, unit, ◌>>=◌, ◌>>◌, get_context, set_context, load8, store64, c_string,
  strcmp_at, u64,
}
use maloader.Host.{Host, Shim}
use maloader.Uleb.{read_uleb128}
use maloader.Imports.{libc_name, libm_name}

-- Constants of mach-o/loader.h.
abbrev pub bind_opcode_mask : ℕ
bind_opcode_mask = 0xF0

abbrev pub bind_immediate_mask : ℕ
bind_immediate_mask = 0x0F

-- sizeof(ptrval)
abbrev pub pointer_size : ℕ
pointer_size = 8

-- The array grows by one. Allocations succeed.
-- `n_bind_info` is an int; the list is not bounded.
unfoldable pub append_bind_info : (func_name address : ℕ) → MachContext → MachContext
append_bind_info func_name address c = record c {
  b_list = c.b_list ++ (record { func_name = func_name; address = address } ∷ []);
}

-- The index is an `int`; `none` is the -1 that it starts with.
unfoldable pub bind_address_for_segment_offset : List SegmentInfo → Option ℕ → (offset : ℕ) → ℕ
bind_address_for_segment_offset segments none offset = 0
bind_address_for_segment_offset segments (some i) offset = elim (get_elem? segments i) [
  | none ↦ 0
  | some seg ↦ if seg.mapped_addr == 0 then 0 else u64 (seg.mapped_addr + offset)
]

-- The local variables of bind_list_retriever.
pub record BindState : Type 0 where
  pub p : ℕ
  pub symbol_name : ℕ
  pub segment_index : Option ℕ
  pub segment_offset : ℕ

abbrev pub bind_start : ℕ → BindState
bind_start start = record { p = start; symbol_name = 0; segment_index = none; segment_offset = 0 }

-- The address of the slot that comes next.
unfoldable pub slot : List SegmentInfo → BindState → ℕ
unfolding bind_address_for_segment_offset
slot segments s = bind_address_for_segment_offset segments s.segment_index s.segment_offset

-- One entry for the slot that comes next.
unfoldable pub do_bind_slot : BindState → Cmd (Unit {0})
unfolding slot append_bind_info
do_bind_slot s = set_context λ c. append_bind_info s.symbol_name (slot c.segments s) c

unfoldable pub skip_offset : (n : ℕ) → BindState → BindState
skip_offset n s = record s { segment_offset = u64 (s.segment_offset + n) }

-- `count` slots, each `skip` bytes behind the end of the one before.
unfoldable pub bind_times : (count skip : ℕ) → BindState → Cmd BindState
unfolding do_bind_slot skip_offset
bind_times zero skip s = pure s
bind_times (suc count) skip s = do
  _ ← do_bind_slot s
  bind_times count skip (skip_offset (pointer_size + skip) s)

-- A ULEB argument, and the state behind it.
unfoldable pub uleb_argument : (end : ℕ) → BindState → Cmd (ℕ × BindState)
unfolding read_uleb128
uleb_argument end s = do (n, p) ← read_uleb128 s.p end; pure (n, record s { p = p })

-- One opcode, with `s.p` behind its byte.
unfoldable pub run_opcode : (end opcode immediate : ℕ) → BindState → Cmd BindState
unfolding uleb_argument bind_times do_bind_slot skip_offset c_string
run_opcode end opcode immediate s =
    when opcode == 0x00
    then pure s
    else when opcode == 0x10
    then pure s
    else when opcode == 0x20
    then (do (_, s') ← uleb_argument end s; pure s')
    else when opcode == 0x30
    then pure s
    else when opcode == 0x40
    then (do text ← c_string s.p; pure (record s { symbol_name = s.p; p = s.p + length text + 1 }))
    else when opcode == 0x50
    then pure s
    else when opcode == 0x60
    then (do (_, s') ← uleb_argument end s; pure s')
    else when opcode == 0x70
    then (do
      (offset, s') ← uleb_argument end s
      pure (record s' { segment_index = some immediate; segment_offset = offset }))
    else when opcode == 0x80
    then (do (n, s') ← uleb_argument end s; pure (skip_offset n s'))
    else when opcode == 0x90
    then (do do_bind_slot s; pure (skip_offset pointer_size s))
    else when opcode == 0xA0
    then (do
      do_bind_slot s
      (n, s') ← uleb_argument end (skip_offset pointer_size s)
      pure (skip_offset n s'))
    else when opcode == 0xB0
    then (do do_bind_slot s; pure (skip_offset (pointer_size + immediate * pointer_size) s))
    else when opcode == 0xC0
    then (do
      (count, s') ← uleb_argument end s
      (skip, s'') ← uleb_argument end s'
      bind_times count skip s'')
    else pure s

unfoldable pub bind_step : (end : ℕ) → BindState → Cmd BindState
unfolding run_opcode load8
bind_step end s = do
  byte ← load8 s.p
  run_opcode end (bit_and byte bind_opcode_mask) (bit_and byte bind_immediate_mask)
      (record s { p = s.p + 1 })

unfoldable pub bind_loop : (fuel end : ℕ) → BindState → Cmd (Unit {0})
unfolding bind_step
bind_loop zero end s = λ _. out_of_fuel
bind_loop (suc fuel) end s =
    when ltb s.p end then (do s' ← bind_step end s; bind_loop fuel end s') else unit

-- Each round takes a byte below `end`.
unfoldable pub bind_list_retriever : (start end : ℕ) → Cmd (Unit {0})
unfolding bind_loop
bind_list_retriever start end = bind_loop (end - start + 1) end (bind_start start)

-- main.c; the array grows by one.
unfoldable pub dylib_list_retriever : DylibName → MachContext → MachContext
dylib_list_retriever dylib_name c = record c { d_list = c.d_list ++ (dylib_name ∷ []) }

unfoldable pub dylib_text : DylibName → Cmd (List ℕ)
unfolding c_string
dylib_text (in_file p) = c_string p
dylib_text (literal text) = pure text

module _ (h : Host) where
  -- The value for the symbol at `c`: a shim of the program's own, or what `dlsym` says.
  unfoldable pub initializer : (library c : ℕ) → Cmd ℕ
  unfolding strcmp_at c_string
  initializer library c = do
    is_mmap ← strcmp_at c (codes "mmap")
    when is_mmap then pure (h.address_of Shim.host_mmap_for_darwin) else (do
      is_guard ← strcmp_at c (codes "__stack_chk_guard")
      when is_guard
          then pure (h.address_of Shim.guard)
          else (do name ← c_string c; pure (h.dlsym library name)))

  -- One entry of the bind list, for one library.
  unfoldable pub bind_symbol : (library : ℕ) → BindInfo → Cmd (Unit {0})
  unfolding initializer store64
  bind_symbol library info = do
    ctx ← get_context
    when leb info.address ctx.img_addr then unit else (do
      first ← load8 info.func_name
      value ← initializer library (if first == b'_' then info.func_name + 1 else info.func_name)
      when value == 0 then unit else store64 info.address value)

  unfoldable pub bind_symbols : (library : ℕ) → List BindInfo → Cmd (Unit {0})
  unfolding bind_symbol
  bind_symbols library [] = unit
  bind_symbols library (info ∷ rest) = do _ ← bind_symbol library info; bind_symbols library rest

  unfoldable pub bind_library : DylibName → Cmd (Unit {0})
  unfolding bind_symbols dylib_text
  bind_library name = do
    text ← dylib_text name
    c ← get_context
    when h.dlopen text == 0 then unit else bind_symbols (h.dlopen text) c.b_list

  unfoldable pub bind_libraries : List DylibName → Cmd (Unit {0})
  unfolding bind_library
  bind_libraries [] = unit
  bind_libraries (name ∷ rest) = do _ ← bind_library name; bind_libraries rest

  unfoldable pub do_bind : Cmd (Unit {0})
  unfolding bind_libraries dylib_list_retriever
  do_bind = do
    set_context (dylib_list_retriever (literal libc_name))
    set_context (dylib_list_retriever (literal libm_name))
    c ← get_context
    bind_libraries c.d_list
