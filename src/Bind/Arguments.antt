-- ===== src/Bind/Arguments.antt =====
-- The arguments of the bind opcodes (bind.c): numbers and texts that lie in memory are read as such.
use maloader.Common.{
  ℕ, zero, suc, ◌+◌, ◌*◌, ◌^◌, ◌<◌, ◌≤◌, ◌≡◌, ◌≢◌, refl, ap, ◌∙◌, some, List, [], ◌∷◌, ◌++◌, length,
  All, arith, ==-of_ne, bit_and,
}
use maloader.Common.Bits.{bit_and_mask, bit_and_shifted}
use maloader.Machine.{Mem, Machine, ok, read_bytes, c_string, c_string_loop, ◌>>=◌}
use maloader.Machine.Memory.{read_bytes-cons}
use maloader.Machine.Stores.{load8-mapped}
use maloader.Uleb.RoundTrip.{read_uleb128-IsUleb}
use maloader.Bind.{BindState, uleb_argument, bind_step, run_opcode}
use maloader.Bind.Operations.{IsNumber, past_byte}

pub read_bytes-append :
    (mem : Mem) (xs ys : List ℕ) (p : ℕ)
    → read_bytes mem p (length (xs ++ ys)) ≡ some (xs ++ ys)
    → (read_bytes mem p (length xs) ≡ some xs)
      × (read_bytes mem (p + length xs) (length ys) ≡ some ys)
unfolding read_bytes
read_bytes-append mem [] ys p e = (refl, ap (λ q. read_bytes mem q (length ys)) (omega arith) ∙ e)
read_bytes-append mem (x ∷ xs) ys p e =
    let (first, rest) = read_bytes-cons mem (length (xs ++ ys)) p e in
    let (left, right) = read_bytes-append mem xs ys (p + 1) rest in
    (ground (arith, first, left), ap (λ q. read_bytes mem q (length ys)) (omega arith) ∙ right)

pub uleb_argument-IsNumber :
    (end n : ℕ) (bs : List ℕ) (s : BindState) (m : Machine)
    → IsNumber n bs
    → read_bytes m.mem s.p (length bs) ≡ some bs
    → s.p + length bs ≤ end
    → uleb_argument end s m ≡ ok (n, record s { p = s.p + length bs }) m
unfolding uleb_argument ◌>>=◌
uleb_argument-IsNumber end n bs s m (encodes, fits, short) stored below =
    rw (read_uleb128-IsUleb n bs m s.p end encodes fits short stored below) refl

c_string_loop-text :
    (text : List ℕ) (fuel p : ℕ) (m : Machine)
    → All (λ b. b ≢ 0) text
    → read_bytes m.mem p (length (text ++ 0 ∷ [])) ≡ some (text ++ 0 ∷ [])
    → length text < fuel
    → c_string_loop fuel p m ≡ ok text m
unfolding c_string_loop ◌>>=◌
c_string_loop-text text zero p m no_nul stored enough = absurd (omega arith)
c_string_loop-text [] (suc fuel) p m no_nul stored enough =
    let (first, _) = read_bytes-cons m.mem 0 p stored in rw (load8-mapped m p first) refl
c_string_loop-text (b ∷ text) (suc fuel) p m (differs, no_nul) stored enough =
    let (first, rest) = read_bytes-cons m.mem (length (text ++ 0 ∷ [])) p stored in
    rw (load8-mapped m p first) (
      rw (==-of_ne b 0 differs)
        (rw (c_string_loop-text text fuel (p + 1) m no_nul rest (omega arith)) refl))

pub c_string-text :
    (text : List ℕ) (p : ℕ) (m : Machine)
    → All (λ b. b ≢ 0) text
    → read_bytes m.mem p (length (text ++ 0 ∷ [])) ≡ some (text ++ 0 ∷ [])
    → p + length text ≤ 2 ^ 64
    → c_string p m ≡ ok text m
unfolding c_string
c_string-text text p m no_nul stored fits =
    c_string_loop-text text _ p m no_nul stored (omega arith)

-- A first byte is taken apart into its two halves.
pub bind_step-halves :
    (end k immediate : ℕ) (s : BindState) (m : Machine)
    → m.mem s.p ≡ some (k * 16 + immediate)
    → k < 16
    → immediate < 16
    → bind_step end s m ≡ run_opcode end (k * 16) immediate (past_byte s) m
unfolding bind_step ◌>>=◌
bind_step-halves end k immediate s m stored high low =
    rw (load8-mapped m s.p stored) (ap (λ (h, l). run_opcode end h l (past_byte s) m) halves)
  where
    upper : bit_and (k * 16 + immediate) 0xF0 ≡ k * 16
    upper = bit_and_shifted 4 k immediate 15 low ∙ ap (λ x. x * 16) (bit_and_mask 4 k ∙ omega arith)

    lower : bit_and (k * 16 + immediate) 0x0F ≡ immediate
    lower = bit_and_mask 4 (k * 16 + immediate) ∙ omega arith

    halves :
        ◌≡◌ {A = ℕ × ℕ}
          (bit_and (k * 16 + immediate) 0xF0, bit_and (k * 16 + immediate) 0x0F)
          (k * 16, immediate)
    halves = rw (upper, lower) refl
