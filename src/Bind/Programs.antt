-- ===== src/Bind/Programs.antt =====
-- bind_list_retriever (bind.c) against the operations that its bytes encode.
use mathlib.Core.List.{append-nil, append_assoc}
use maloader.Common.{
  ℕ, zero, suc, ◌+◌, ◌*◌, ◌^◌, ◌<◌, ◌≤◌, ◌≡◌, refl, sym, ap, ◌∙◌, some, List, [], ◌∷◌, ◌++◌, length,
  length-append, All, arith, lt→ltb, le→not-ltb,
}
use maloader.Machine.{Machine, BindInfo, ok, read_bytes, ◌>>=◌}
use maloader.Machine.Memory.{read_bytes-cons}
use maloader.Bind.{BindState, bind_start, skip_offset, bind_step, bind_loop, bind_list_retriever}
use maloader.Bind.Slots.{with_binds}
use maloader.Bind.Arguments.{read_bytes-append, bind_step-halves}
use maloader.Bind.Operations.{
  Operation, done, set_dylib_ordinal_imm, set_dylib_special_imm, set_type_imm, set_dylib_ordinal,
  set_addend, set_symbol, set_segment_and_offset, add_addr, do_bind, do_bind_add_addr_imm_scaled,
  do_bind_add_addr, do_bind_times_skipping, opcode, HasArguments, Instruction, IsInstruction,
  bytes_of, binds_of_operation, perform, behind, past_byte, binds_of,
}
use maloader.Bind.Steps.{run_opcode-Operation}

opcode-small : (operation : Operation) → opcode operation < 16
unfolding opcode
opcode-small done = omega arith
opcode-small set_dylib_ordinal_imm = omega arith
opcode-small (set_dylib_ordinal n) = omega arith
opcode-small set_dylib_special_imm = omega arith
opcode-small (set_symbol text) = omega arith
opcode-small set_type_imm = omega arith
opcode-small (set_addend n) = omega arith
opcode-small (set_segment_and_offset n) = omega arith
opcode-small (add_addr n) = omega arith
opcode-small do_bind = omega arith
opcode-small (do_bind_add_addr n) = omega arith
opcode-small do_bind_add_addr_imm_scaled = omega arith
opcode-small (do_bind_times_skipping count skip) = omega arith

-- The offset stays a 64-bit number.
perform-offset :
    (operation : Operation) (immediate : ℕ) (args : List ℕ) (s : BindState)
    → HasArguments operation args
    → s.segment_offset < 2 ^ 64
    → (perform operation immediate s).segment_offset < 2 ^ 64
unfolding perform HasArguments skip_offset
perform-offset done immediate args s e offset = offset
perform-offset set_dylib_ordinal_imm immediate args s e offset = offset
perform-offset (set_dylib_ordinal n) immediate args s e offset = offset
perform-offset set_dylib_special_imm immediate args s e offset = offset
perform-offset (set_symbol text) immediate args s e offset = offset
perform-offset set_type_imm immediate args s e offset = offset
perform-offset (set_addend n) immediate args s e offset = offset
perform-offset (set_segment_and_offset n) immediate args s e offset = e.1
perform-offset (add_addr n) immediate args s e offset = omega arith
perform-offset do_bind immediate args s e offset = omega arith
perform-offset (do_bind_add_addr n) immediate args s e offset = omega arith
perform-offset do_bind_add_addr_imm_scaled immediate args s e offset = omega arith
perform-offset (do_bind_times_skipping count skip) immediate args s e offset = omega arith

bind_step-Instruction :
    (end : ℕ) (i : Instruction) (s : BindState) (m : Machine)
    → IsInstruction i
    → end ≤ 2 ^ 64
    → s.segment_offset < 2 ^ 64
    → read_bytes m.mem s.p (suc (length i.arguments))
      ≡ some ((opcode i.operation * 16 + i.immediate) ∷ i.arguments)
    → s.p + 1 + length i.arguments ≤ end
    → bind_step end s m
      ≡ ok
          (behind i.operation i.immediate (length i.arguments) (past_byte s))
          (with_binds m (binds_of_operation m.context.segments i.operation (past_byte s)))
bind_step-Instruction end i s m (low, e) in_space offset stored below =
    let (first, rest) = read_bytes-cons m.mem (length i.arguments) s.p stored in
    bind_step-halves end (opcode i.operation) i.immediate s m first (opcode-small i.operation) low
    ∙ run_opcode-Operation end i.immediate (past_byte s) m in_space offset i.operation i.arguments e
        rest below

bind_loop-suc :
    (fuel end : ℕ) (s : BindState) (m : Machine) {s' : BindState} {m' : Machine}
    → s.p < end
    → bind_step end s m ≡ ok s' m'
    → bind_loop (suc fuel) end s m ≡ bind_loop fuel end s' m'
unfolding bind_loop ◌>>=◌
bind_loop-suc fuel end s m inside ran = rw (lt→ltb s.p end inside) (rw ran refl)

bind_loop-end :
    (fuel end : ℕ) (s : BindState) (m : Machine)
    → end ≤ s.p
    → bind_loop (suc fuel) end s m ≡ ok tt m
unfolding bind_loop ◌>>=◌
bind_loop-end fuel end s m outside = rw (le→not-ltb s.p end outside) refl

with_binds-append :
    (m : Machine) (xs ys : List BindInfo)
    → with_binds (with_binds m xs) ys ≡ with_binds m (xs ++ ys)
with_binds-append m xs ys =
    ap (λ infos. record m { context = record m.context { b_list = infos } })
      (append_assoc m.context.b_list xs ys)

bind_loop-bytes_of :
    (program : List Instruction) (fuel end : ℕ) (s : BindState) (m : Machine)
    → All IsInstruction program
    → end ≤ 2 ^ 64
    → s.segment_offset < 2 ^ 64
    → read_bytes m.mem s.p (length (bytes_of program)) ≡ some (bytes_of program)
    → end ≡ s.p + length (bytes_of program)
    → length (bytes_of program) < fuel
    → bind_loop fuel end s m ≡ ok tt (with_binds m (binds_of m.context.segments program s))
unfolding bytes_of binds_of
bind_loop-bytes_of program zero end s m good in_space offset stored ends enough =
    absurd (omega arith)
bind_loop-bytes_of [] (suc fuel) end s m good in_space offset stored ends enough =
    bind_loop-end fuel end s m (omega arith)
    ∙ ap (λ infos. ok tt (record m { context = record m.context { b_list = infos } }))
        (sym (append-nil m.context.b_list))
bind_loop-bytes_of (i ∷ program) (suc fuel) end s m (first, good) in_space offset stored ends
      enough =
    let byte = opcode i.operation * 16 + i.immediate in
    let rest = bytes_of program in
    let sum : length (i.arguments ++ rest) ≡ length i.arguments + length rest =
      length-append i.arguments rest in
    let (left, right) = read_bytes-append m.mem (byte ∷ i.arguments) rest s.p stored in
    let s' = behind i.operation i.immediate (length i.arguments) (past_byte s) in
    let binds = binds_of_operation m.context.segments i.operation (past_byte s) in
    let there : s.p + suc (length i.arguments) ≡ s.p + 1 + length i.arguments = omega arith in
    bind_loop-suc fuel end s m (omega arith)
      (bind_step-Instruction end i s m first in_space offset left (omega arith))
    ∙ bind_loop-bytes_of program fuel end s' (with_binds m binds) good in_space
        (perform-offset i.operation i.immediate i.arguments (past_byte s) first.1 offset)
        (ap (λ q. read_bytes m.mem q (length rest)) (sym there) ∙ right) (omega arith) (omega arith)
    ∙ ap (ok tt) (with_binds-append m binds (binds_of m.context.segments program s'))

-- Where the bytes from `start` on encode a list of operations, and end within the address space,
-- the retriever appends exactly the binds that the operations stand for, in their order, and
-- changes nothing else.
pub bind_list_retriever-bytes_of :
    (program : List Instruction) (start : ℕ) (m : Machine)
    → All IsInstruction program
    → start + length (bytes_of program) ≤ 2 ^ 64
    → read_bytes m.mem start (length (bytes_of program)) ≡ some (bytes_of program)
    → bind_list_retriever start (start + length (bytes_of program)) m
      ≡ ok tt (with_binds m (binds_of m.context.segments program (bind_start start)))
unfolding bind_list_retriever
bind_list_retriever-bytes_of program start m good in_space stored =
    bind_loop-bytes_of program _ (start + length (bytes_of program)) (bind_start start) m good
      in_space (omega arith) stored refl (omega arith)
