-- ===== src/Bind/Slots.antt =====
-- The slots of BIND_OPCODE_DO_BIND_ULEB_TIMES_SKIPPING_ULEB (bind.c): a row of `count` of them, in
-- the same place of the same segment, `skip` bytes apart.
use mathlib.Core.List.{append_assoc, append-nil}
use maloader.Common.{
  ℕ, zero, suc, ◌+◌, ◌*◌, ◌^◌, ◌<◌, ◌≡◌, refl, ◌∙◌, sym, List, [], ◌∷◌, ◌++◌, arith, Option, none,
  some, Option-cases, inl, inr, get_elem?, if◌then◌else◌, ◌==◌,
}
use maloader.Machine.{SegmentInfo, BindInfo, Machine, ok, u64, ◌>>=◌, Run}
use maloader.Bind.{
  BindState, slot, append_bind_info, do_bind_slot, skip_offset, bind_times,
  bind_address_for_segment_offset,
}

-- The machine with `infos` behind its bind list.
abbrev pub with_binds : Machine → List BindInfo → Machine
with_binds m infos = record m { context = record m.context { b_list = m.context.b_list ++ infos } }

-- The word at an offset into the segment of an index: NULL where there is no such segment, or it has no
-- place in memory.
unfoldable pub word_at : List SegmentInfo → Option ℕ → (offset : ℕ) → ℕ
word_at segments none offset = 0
word_at segments (some i) offset = elim (get_elem? segments i) [
  | none ↦ 0
  | some seg ↦ if seg.mapped_addr == 0 then 0 else u64 (seg.mapped_addr + offset)
]

slot-word_at :
    (segments : List SegmentInfo) (s : BindState)
    → slot segments s ≡ word_at segments s.segment_index s.segment_offset
unfolding slot bind_address_for_segment_offset word_at
slot-word_at segments s = elim (Option-cases s.segment_index) [
  | inl e ↦ rw e refl
  | inr (i, e) ↦ rw e refl
]

-- The entries of `count` slots, the first at `s`.
unfoldable pub slot_row : List SegmentInfo → (count skip : ℕ) → BindState → List BindInfo
unfolding word_at skip_offset
slot_row segments zero skip s = []
slot_row segments (suc count) skip s =
    record {
      func_name = s.symbol_name;
      address = word_at segments s.segment_index s.segment_offset;
    }
    ∷ slot_row segments count skip (skip_offset (8 + skip) s)

abbrev pub passed : (count skip : ℕ) → BindState → BindState
passed count skip s = record s { segment_offset = u64 (s.segment_offset + count * (8 + skip)) }

results :
    (s : BindState) (m : Machine) {offset offset' : ℕ} {infos infos' : List BindInfo}
    → offset ≡ offset'
    → infos ≡ infos'
    → ◌≡◌ {A = Run BindState}
        (ok
          (record s { segment_offset = offset })
          (record m { context = record m.context { b_list = infos } }))
        (ok
          (record s { segment_offset = offset' })
          (record m { context = record m.context { b_list = infos' } }))
results s m same same' = rw (same, same') refl

-- From a 64-bit offset on, `count` slots are appended, `skip` bytes apart, and the offset ends
-- behind the last of them; nothing else changes.
pub bind_times-slot_row :
    (count skip : ℕ) (s : BindState) (m : Machine)
    → s.segment_offset < 2 ^ 64
    → bind_times count skip s m
      ≡ ok (passed count skip s) (with_binds m (slot_row m.context.segments count skip s))
unfolding bind_times slot_row do_bind_slot append_bind_info skip_offset ◌>>=◌
bind_times-slot_row zero skip s m fits =
    let offset : s.segment_offset ≡ u64 (s.segment_offset + 0 * (8 + skip)) = omega arith in
    results s m offset (sym (append-nil m.context.b_list))
bind_times-slot_row (suc count) skip s m fits = rw (slot-word_at m.context.segments s) (
    let info : BindInfo = record {
      func_name = s.symbol_name;
      address = word_at m.context.segments s.segment_index s.segment_offset;
    } in
    let next = skip_offset (8 + skip) s in
    let offset : u64 (u64 (s.segment_offset + (8 + skip)) + count * (8 + skip))
        ≡ u64 (s.segment_offset + suc count * (8 + skip)) =
      omega arith in
    bind_times-slot_row count skip next (with_binds m (info ∷ [])) (omega arith)
    ∙ results s m offset
        (append_assoc m.context.b_list (info ∷ []) (slot_row m.context.segments count skip next)))
