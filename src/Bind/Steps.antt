-- ===== src/Bind/Steps.antt =====
-- One bind opcode (bind.c) against the operation that it encodes.
use mathlib.Core.List.{append-nil}
use maloader.Common.{
  ℕ, zero, suc, ◌+◌, ◌*◌, ◌^◌, ◌<◌, ◌≤◌, ◌≡◌, refl, ap, ◌∙◌, some, List, [], ◌∷◌, ◌++◌, length,
  length-append, arith,
}
use maloader.Machine.{Machine, SegmentInfo, BindInfo, Run, ok, read_bytes, ◌>>=◌}
use maloader.Bind.{BindState, append_bind_info, do_bind_slot, skip_offset, run_opcode}
use maloader.Bind.Slots.{with_binds, slot_row, passed, bind_times-slot_row, word_at}
use maloader.Bind.Arguments.{read_bytes-append, uleb_argument-IsNumber, c_string-text}
use maloader.Bind.Operations.{
  Operation, done, set_dylib_ordinal_imm, set_dylib_special_imm, set_type_imm, set_dylib_ordinal,
  set_addend, set_symbol, set_segment_and_offset, add_addr, do_bind, do_bind_add_addr_imm_scaled,
  do_bind_add_addr, do_bind_times_skipping, opcode, HasArguments, binds_of_operation, perform,
  behind,
}

-- The same result, written with the pointer and the binds of an operation.
same_result :
    (s : BindState) (m : Machine) {p p' : ℕ}
    → p ≡ p'
    → ◌≡◌ {A = Run BindState}
        (ok (record s { p = p }) m)
        (ok (record s { p = p' }) (with_binds m []))
same_result s m same = rw (same, append-nil m.context.b_list) refl

no_arguments : {bs : List ℕ} (p : ℕ) → bs ≡ [] → p ≡ p + length bs
no_arguments p e = rw e (omega arith)

length-text_args : (text args : List ℕ) → args ≡ text ++ 0 ∷ [] → length args ≡ length text + 1
length-text_args text args e = ap length e ∙ length-append text (0 ∷ [])

-- The slots do not depend on where the parser stands.
slot_row-p :
    (segments : List SegmentInfo) (count skip : ℕ) (s : BindState) (p : ℕ)
    → slot_row segments count skip (record s { p = p }) ≡ slot_row segments count skip s
unfolding slot_row
slot_row-p segments zero skip s p = refl
slot_row-p segments (suc count) skip s p =
    let info : BindInfo = record {
      func_name = s.symbol_name;
      address = word_at segments s.segment_index s.segment_offset;
    } in
    ap (λ infos. info ∷ infos) (slot_row-p segments count skip (skip_offset (8 + skip) s) p)

-- The result of one slot, for operations that have no arguments.
one_slot :
    (s s' : BindState) (m : Machine) (args : List ℕ)
    → args ≡ []
    → ◌≡◌ {A = Run BindState}
        (ok (record s' { p = s.p }) (with_binds m (slot_row m.context.segments 1 0 s)))
        (ok
          (record s' { p = s.p + length args })
          (with_binds m (slot_row m.context.segments 1 0 s)))
one_slot s s' m args e =
    ap (λ p. ok (record s' { p = p }) (with_binds m (slot_row m.context.segments 1 0 s)))
      (no_arguments s.p e)

module _ (end immediate : ℕ) (s : BindState) (m : Machine) (in_space : end ≤ 2 ^ 64)
    (offset : s.segment_offset < 2 ^ 64) where
  -- One operation behind its first byte.
  pub run_opcode-Operation :
      (operation : Operation) (args : List ℕ)
      → HasArguments operation args
      → read_bytes m.mem s.p (length args) ≡ some args
      → s.p + length args ≤ end
      → run_opcode end (opcode operation * 16) immediate s m
        ≡ ok
            (behind operation immediate (length args) s)
            (with_binds m (binds_of_operation m.context.segments operation s))
  unfolding run_opcode opcode HasArguments perform binds_of_operation slot_row do_bind_slot
      append_bind_info ◌>>=◌
  run_opcode-Operation done args e stored below = same_result s m (no_arguments s.p e)
  run_opcode-Operation set_dylib_ordinal_imm args e stored below =
      same_result s m (no_arguments s.p e)
  run_opcode-Operation (set_dylib_ordinal n) args e stored below =
      rw (uleb_argument-IsNumber end n args s m e stored below) (same_result s m refl)
  run_opcode-Operation set_dylib_special_imm args e stored below =
      same_result s m (no_arguments s.p e)
  run_opcode-Operation (set_symbol text) args (no_nul, e) stored below =
      let len = length-text_args text args e in
      rw (c_string-text text s.p m no_nul (rw e at stored) (omega arith))
        (same_result (record s { symbol_name = s.p }) m (omega arith))
  run_opcode-Operation set_type_imm args e stored below = same_result s m (no_arguments s.p e)
  run_opcode-Operation (set_addend n) args e stored below =
      rw (uleb_argument-IsNumber end n args s m e stored below) (same_result s m refl)
  run_opcode-Operation (set_segment_and_offset n) args e stored below =
      rw (uleb_argument-IsNumber end n args s m e stored below)
        (same_result (record s { segment_index = some immediate; segment_offset = n }) m refl)
  run_opcode-Operation (add_addr n) args e stored below =
      rw (uleb_argument-IsNumber end n args s m e stored below)
        (same_result (skip_offset n s) m refl)
  run_opcode-Operation do_bind args e stored below = one_slot s (skip_offset 8 s) m args e
  run_opcode-Operation (do_bind_add_addr n) args e stored below =
      let next = skip_offset 8 s in
      let m' = with_binds m (slot_row m.context.segments 1 0 s) in
      rw (uleb_argument-IsNumber end n args next m' e stored below) refl
  run_opcode-Operation do_bind_add_addr_imm_scaled args e stored below =
      one_slot s (skip_offset (8 + immediate * 8) s) m args e
  run_opcode-Operation (do_bind_times_skipping count skip) args (cs, ds, c, d, e) stored below =
      let (left, right) = read_bytes-append m.mem cs ds s.p (rw e at stored) in
      let len : length args ≡ length cs + length ds = ap length e ∙ length-append cs ds in
      let middle = record s { p = s.p + length cs } in
      let last = record s { p = s.p + length cs + length ds } in
      let behind_both : s.p + length cs + length ds ≡ s.p + length args = omega arith in
      rw (uleb_argument-IsNumber end count cs s m c left (omega arith)) (
        rw (uleb_argument-IsNumber end skip ds middle m d right (omega arith)) (
          bind_times-slot_row count skip last m offset
          ∙ ap (λ infos. ok (passed count skip last) (with_binds m infos))
              (slot_row-p m.context.segments count skip s _)
          ∙ ap
              (λ p.
                ok (record (passed count skip s) { p = p })
                  (with_binds m (slot_row m.context.segments count skip s)))
              behind_both))
