-- ===== src/Bind/Evolution.antt =====
-- The bind opcodes and do_bind keep the machine, and the opcode loop ends: each round moves on.
use maloader.Common.{ℕ, zero, suc, ◌+◌, ◌≤◌, ◌<◌, refl, List, [], ◌∷◌, length, arith, some}
use maloader.Machine.{DylibName, in_file, literal, BindInfo, pure, ◌>>=◌, set_context, c_string}
use maloader.Machine.Runs
use maloader.Machine.Runs.{Ensures}
use maloader.Machine.Evolves.{
  Extends-refl, Evolves-refl, Keeps, Keeps-pure, Keeps-bind, Keeps-set_context, keeps,
  Keeps-when_test,
}
use maloader.Machine.Commands.{Keeps-load8, Keeps-c_string, keeps_commands}
use maloader.Machine.Results.{
  KeepsTo, Keeps-of_KeepsTo, KeepsTo-pure, KeepsTo-bind, KeepsTo-then, KeepsTo-when,
  KeepsTo-of_Keeps,
}
use maloader.Host.{Host}
use maloader.Uleb.{read_uleb128}
use maloader.Uleb.Bounds.{read_uleb128-Yields}
use maloader.Bind.{
  BindState, append_bind_info, do_bind_slot, skip_offset, bind_times, uleb_argument, run_opcode,
  bind_step, bind_loop, bind_list_retriever, dylib_list_retriever, dylib_text, initializer,
  bind_symbol, bind_symbols, bind_library, bind_libraries, do_bind, pointer_size,
}

-- The parser stands at `p` or behind it.
abbrev pub IsFrom : ℕ → BindState → Type 0
IsFrom p s = p ≤ s.p

Keeps-do_bind_slot : (s : BindState) → Keeps (do_bind_slot s)
unfolding do_bind_slot append_bind_info
Keeps-do_bind_slot s =
    Keeps-set_context _
      (λ c. record {
        memblock = refl;
        argc = refl;
        argv = refl;
        bit = refl;
        img_addr = λ _. refl;
        v_addr = λ _. refl;
        segments = Extends-refl _;
        b_list = (_, refl);
        d_list = Extends-refl _;
      })
      (λ c h. h)

KeepsTo-bind_times :
    (count skip : ℕ) (s : BindState) (p : ℕ)
    → IsFrom p s
    → KeepsTo (IsFrom p) (bind_times count skip s)
unfolding bind_times skip_offset
KeepsTo-bind_times zero skip s p h = KeepsTo-pure s h
KeepsTo-bind_times (suc count) skip s p h =
    KeepsTo-then (Keeps-do_bind_slot s)
      λ _. KeepsTo-bind_times count skip (skip_offset (pointer_size + skip) s) p h

KeepsTo-uleb_argument :
    (end : ℕ) (s : BindState) (p : ℕ)
    → IsFrom p s
    → KeepsTo (λ (n, s'). IsFrom p s') (uleb_argument end s)
unfolding uleb_argument
KeepsTo-uleb_argument end s p h = KeepsTo-bind (at s.p) λ (n, q) from. KeepsTo-pure _ (omega arith)
  where
    at : (q : ℕ) → KeepsTo (λ (n, q'). q ≤ q') (read_uleb128 q end)
    at q = record {
      run = λ m w.
          Runs.mono (read_uleb128-Yields m q end).run
            λ r m' (same, (from, upto)). rw same ((w, Evolves-refl m), from);
    }

-- Every opcode leaves the parser where it stands or moves it on.
KeepsTo-run_opcode :
    (end opcode immediate : ℕ) (s : BindState)
    → KeepsTo (IsFrom s.p) (run_opcode end opcode immediate s)
unfolding run_opcode skip_offset
KeepsTo-run_opcode end opcode immediate s = KeepsTo-when _ stay (
    KeepsTo-when _ stay (
      KeepsTo-when _ argument (
        KeepsTo-when _ stay (
          KeepsTo-when _ symbol (
            KeepsTo-when _ stay (
              KeepsTo-when _ argument (
                KeepsTo-when _ segment (
                  KeepsTo-when _ add (
                    KeepsTo-when _ (slot_then _) (
                      KeepsTo-when _ slot_add
                        (KeepsTo-when _ (slot_then _) (KeepsTo-when _ times stay))))))))))))
  where
    stay : KeepsTo (IsFrom s.p) (pure s)
    stay = KeepsTo-pure s (omega arith)

    argument : KeepsTo (IsFrom s.p) (uleb_argument end s >>= λ r. pure r.1)
    argument =
        KeepsTo-bind (KeepsTo-uleb_argument end s s.p (omega arith)) λ (n, s') h. KeepsTo-pure s' h

    symbol :
        KeepsTo (IsFrom s.p) (
          c_string s.p >>= λ text. pure (record s { symbol_name = s.p; p = s.p + length text + 1 }))
    symbol = KeepsTo-then (Keeps-c_string s.p) λ text. KeepsTo-pure _ (omega arith)

    segment : KeepsTo (IsFrom s.p) (
        uleb_argument end s >>= λ r.
        pure (record r.1 { segment_index = some immediate; segment_offset = r.0 }))
    segment =
        KeepsTo-bind (KeepsTo-uleb_argument end s s.p (omega arith)) λ (n, s') h. KeepsTo-pure _ h

    add : KeepsTo (IsFrom s.p) (uleb_argument end s >>= λ r. pure (skip_offset r.0 r.1))
    add = KeepsTo-bind (KeepsTo-uleb_argument end s s.p (omega arith)) λ (n, s') h. KeepsTo-pure _ h

    slot_then : (n : ℕ) → KeepsTo (IsFrom s.p) (do_bind_slot s >>= λ _. pure (skip_offset n s))
    slot_then n = KeepsTo-then (Keeps-do_bind_slot s) λ _. KeepsTo-pure _ (omega arith)

    slot_add : KeepsTo (IsFrom s.p) (
        do_bind_slot s >>= λ _.
        (uleb_argument end (skip_offset pointer_size s) >>= λ r. pure (skip_offset r.0 r.1)))
    slot_add = KeepsTo-then (Keeps-do_bind_slot s) λ _.
        KeepsTo-bind (KeepsTo-uleb_argument end _ s.p (omega arith)) λ (n, s') h. KeepsTo-pure _ h

    times :
        KeepsTo
          (IsFrom s.p)
          (uleb_argument end s >>= λ r. (uleb_argument end r.1 >>= λ t. bind_times r.0 t.0 t.1))
    times = KeepsTo-bind (KeepsTo-uleb_argument end s s.p (omega arith)) λ (n, s') h.
        KeepsTo-bind (KeepsTo-uleb_argument end s' s.p h)
          λ (k, s'') h'. KeepsTo-bind_times n k s'' s.p h'

KeepsTo-bind_step : (end : ℕ) (s : BindState) → KeepsTo (IsFrom (s.p + 1)) (bind_step end s)
unfolding bind_step
KeepsTo-bind_step end s = KeepsTo-then (Keeps-load8 s.p) λ byte. KeepsTo-run_opcode end _ _ _

Keeps-bind_loop :
    (fuel end : ℕ) (s : BindState) → 0 < fuel → end < fuel + s.p → Keeps (bind_loop fuel end s)
unfolding bind_loop
Keeps-bind_loop zero end s some_fuel h = absurd (omega arith)
Keeps-bind_loop (suc fuel) end s some_fuel h =
    Keeps-when_test _
      (λ inside. Keeps-of_KeepsTo (
        KeepsTo-bind (KeepsTo-bind_step end s)
          λ s' from. KeepsTo-of_Keeps (Keeps-bind_loop fuel end s' (ground arith) (ground arith))))
      (λ outside. Keeps-pure tt)

pub Keeps-bind_list_retriever : (start end : ℕ) → Keeps (bind_list_retriever start end)
unfolding bind_list_retriever
Keeps-bind_list_retriever start end = Keeps-bind_loop _ end _ (omega arith) (omega arith)

pub Keeps-add_dylib : (name : DylibName) → Keeps (set_context (dylib_list_retriever name))
unfolding dylib_list_retriever
Keeps-add_dylib name =
    Keeps-set_context _
      (λ c. record {
        memblock = refl;
        argc = refl;
        argv = refl;
        bit = refl;
        img_addr = λ _. refl;
        v_addr = λ _. refl;
        segments = Extends-refl _;
        b_list = Extends-refl _;
        d_list = (_, refl);
      })
      (λ c h. h)

Keeps-dylib_text : (name : DylibName) → Keeps (dylib_text name)
unfolding dylib_text
Keeps-dylib_text (in_file p) = Keeps-c_string p
Keeps-dylib_text (literal text) = Keeps-pure text

module _ (h : Host) where
  Keeps-initializer : (library c : ℕ) → Keeps (initializer h library c)
  unfolding initializer
  Keeps-initializer library c = search keeps_commands depth 9

  Keeps-bind_symbol : (library : ℕ) (info : BindInfo) → Keeps (bind_symbol h library info)
  unfolding bind_symbol
  Keeps-bind_symbol library info = search (keeps_commands, Keeps-initializer) depth 9

  Keeps-bind_symbols : (library : ℕ) (infos : List BindInfo) → Keeps (bind_symbols h library infos)
  unfolding bind_symbols
  Keeps-bind_symbols library [] = Keeps-pure tt
  Keeps-bind_symbols library (info ∷ rest) =
      Keeps-bind (Keeps-bind_symbol library info) λ _. Keeps-bind_symbols library rest

  Keeps-bind_library : (name : DylibName) → Keeps (bind_library h name)
  unfolding bind_library
  Keeps-bind_library name = search (keeps, Keeps-dylib_text, Keeps-bind_symbols) depth 9

  Keeps-bind_libraries : (names : List DylibName) → Keeps (bind_libraries h names)
  unfolding bind_libraries
  Keeps-bind_libraries [] = Keeps-pure tt
  Keeps-bind_libraries (name ∷ rest) =
      Keeps-bind (Keeps-bind_library name) λ _. Keeps-bind_libraries rest

  pub Keeps-do_bind : Keeps (do_bind h)
  unfolding do_bind
  Keeps-do_bind = search (keeps, Keeps-add_dylib, Keeps-bind_libraries) depth 9
