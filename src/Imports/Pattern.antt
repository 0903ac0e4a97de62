-- ===== src/Imports/Pattern.antt =====
-- mal_memset_pattern16 (bind.c) against the memory that it means to leave.
use mathlib.Core.Path.{fun_ext}
use maloader.Common.{
  ℕ, zero, suc, ◌+◌, ◌-◌, ◌%◌, ◌≤◌, ◌<◌, ◌≡◌, refl, ap, ◌∙◌, sym, ◌⊎◌, inl, inr, ◌≢◌, some, none,
  [], ◌∷◌, ◌&&◌, leb, ltb, if◌then◌else◌, bit_and, arith,
}
use maloader.Common.Bits.{bit_and_mask}
use maloader.Machine.{Mem, Machine, ok, put_bytes, ◌>>=◌}
use maloader.Machine.Memory.{IsMapped, put_bytes-outside, put_bytes-ne-none}
use maloader.Machine.Stores.{store8-mapped, load8-mapped}
use maloader.Imports.{memset_pattern16_loop, mal_memset_pattern16}

-- `mem`, with the pattern `pat` of sixteen bytes in the bytes `i` to `i + n` of the block at `d`.
unfoldable pub painted : Mem → (d i n : ℕ) → (pat : ℕ → ℕ) → Mem
painted mem d i n pat a =
    if leb (d + i) a && ltb a (d + i + n) then some (pat ((a - d) % 16)) else mem a

painted-zero : (mem : Mem) (d i : ℕ) (pat : ℕ → ℕ) → painted mem d i 0 pat ≡ mem
unfolding painted
painted-zero mem d i pat = fun_ext λ a. ground arith

painted-suc :
    (mem : Mem) (d i n : ℕ) (pat : ℕ → ℕ)
    → painted (put_bytes mem (d + i) (pat (i % 16) ∷ [])) d (i + 1) n pat
      ≡ painted mem d i (suc n) pat
unfolding painted put_bytes
painted-suc mem d i n pat = fun_ext λ a. ground arith

-- `pat` is what the sixteen bytes at `p` hold.
abbrev pub HasPattern : Mem → ℕ → (ℕ → ℕ) → Type 0
HasPattern mem p pat = (j : ℕ) → j < 16 → mem (p + j) ≡ some (pat j)

HasPattern-spared :
    (mem : Mem) (p q b : ℕ) (pat : ℕ → ℕ)
    → (q + 1 ≤ p) ⊎ (p + 16 ≤ q)
    → HasPattern mem p pat
    → HasPattern (put_bytes mem q (b ∷ [])) p pat
HasPattern-spared mem p q b pat (inl below) has j small =
    put_bytes-outside mem q (b ∷ []) (p + j) (inr (omega arith)) ∙ has j small
HasPattern-spared mem p q b pat (inr above) has j small =
    put_bytes-outside mem q (b ∷ []) (p + j) (inl (omega arith)) ∙ has j small

memset_pattern16_loop-suc :
    (rounds i d p b : ℕ) (m : Machine)
    → m.mem (p + bit_and i 15) ≡ some b
    → m.mem (d + i) ≢ none
    → memset_pattern16_loop (suc rounds) i d p m
      ≡ memset_pattern16_loop rounds
          (i + 1)
          d
          p
          (record m { mem = put_bytes m.mem (d + i) (b ∷ []) })
unfolding memset_pattern16_loop ◌>>=◌
memset_pattern16_loop-suc rounds i d p b m found mapped =
    rw (load8-mapped m _ found) (rw (store8-mapped m (d + i) b mapped) refl)

memset_pattern16_loop-painted :
    (rounds i d p : ℕ) (pat : ℕ → ℕ) (m : Machine)
    → HasPattern m.mem p pat
    → IsMapped m.mem (d + i) rounds
    → (d + i + rounds ≤ p) ⊎ (p + 16 ≤ d + i)
    → memset_pattern16_loop rounds i d p m ≡ ok tt (record m { mem = painted m.mem d i rounds pat })
unfolding memset_pattern16_loop ◌>>=◌
memset_pattern16_loop-painted zero i d p pat m has mapped apart =
    ap (λ mem. ok tt (record m { mem = mem })) (sym (painted-zero m.mem d i pat))
memset_pattern16_loop-painted (suc rounds) i d p pat m has mapped apart =
    let mem = put_bytes m.mem (d + i) (pat (i % 16) ∷ []) in
    let found = ap (λ j. m.mem (p + j)) (bit_and_mask 4 i) ∙ has (i % 16) (omega arith) in
    memset_pattern16_loop-suc rounds i d p (pat (i % 16)) m found
      (mapped (d + i) (omega arith) (omega arith))
    ∙ memset_pattern16_loop-painted rounds (i + 1) d p pat (record m { mem = mem })
        (HasPattern-spared m.mem p (d + i) _ pat (first apart) has)
        (λ a from upto.
          put_bytes-ne-none m.mem (d + i) (pat (i % 16) ∷ []) a
            (mapped a (omega arith) (omega arith)))
        (later apart)
    ∙ ap (λ mem. ok tt (record m { mem = mem })) (painted-suc m.mem d i rounds pat)
  where
    first : (d + i + suc rounds ≤ p) ⊎ (p + 16 ≤ d + i) → (d + i + 1 ≤ p) ⊎ (p + 16 ≤ d + i)
    first (inl below) = inl (omega arith)
    first (inr above) = inr above

    later :
        (d + i + suc rounds ≤ p) ⊎ (p + 16 ≤ d + i)
        → (d + (i + 1) + rounds ≤ p) ⊎ (p + 16 ≤ d + (i + 1))
    later (inl below) = inl (omega arith)
    later (inr above) = inr (omega arith)

-- Where the block is mapped and apart from the pattern, it ends up full of the pattern, from the
-- pattern's first byte on, and nothing else changes.
pub mal_memset_pattern16-painted :
    (dst pattern16 len : ℕ) (pat : ℕ → ℕ) (m : Machine)
    → HasPattern m.mem pattern16 pat
    → IsMapped m.mem dst len
    → (dst + len ≤ pattern16) ⊎ (pattern16 + 16 ≤ dst)
    → mal_memset_pattern16 dst pattern16 len m
      ≡ ok tt (record m { mem = painted m.mem dst 0 len pat })
unfolding mal_memset_pattern16
mal_memset_pattern16-painted dst pattern16 len pat m has mapped apart =
    memset_pattern16_loop-painted len 0 dst pattern16 pat m has
      (λ a from upto. mapped a (omega arith) (omega arith)) (from_start apart)
  where
    from_start :
        (dst + len ≤ pattern16) ⊎ (pattern16 + 16 ≤ dst)
        → (dst + 0 + len ≤ pattern16) ⊎ (pattern16 + 16 ≤ dst + 0)
    from_start (inl below) = inl (omega arith)
    from_start (inr above) = inr (omega arith)
