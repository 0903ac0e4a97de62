-- ===== src/Fixups/Walk.antt =====
-- The walk along a chain of rebases and binds (main.c, dump_chained_64_offset_entries).
use maloader.Common.{
  ℕ, zero, suc, ◌+◌, ◌*◌, ◌≤◌, ◌<◌, ◌≡◌, ◌≢◌, refl, ap, ◌∙◌, true, some, ◌⊎◌, inl, inr, List, [],
  ◌∷◌, All, take, take-nil, ◌==◌, ==-of_ne, arith, sym,
}
use maloader.Machine.{Mem, Machine, and_then, Cmd, read_le, u64, ◌>>=◌, when◌then◌else◌, unit}
use maloader.Machine.Memory.{IsOutside, read_le-congr}
use maloader.Machine.Stores.{load64-mapped}
use maloader.Machine.Footprint.{SameOn, and_then-congr}
use maloader.Host.{Host, stdinp, stdoutp, stderrp}
use maloader.Formats.Fixups.{ChainedFixupsHeader}
use maloader.Fixups.{chained64_next, apply_entry, walk_chain}
use maloader.Fixups.Confined.{IsNoStream, Preserves-apply_entry}

-- A location and the pointer that it holds.
abbrev pub Link : Type 0
Link = ℕ × ℕ

-- `es` are the links of the chain that starts at `loc`: each leads to the next one by its `next`
-- field, in units of four bytes, and the last one's field is zero.
pub data IsChain (mem : Mem) : ℕ → List Link → Type 0 where
  last :
      {loc : ℕ} (raw : ℕ)
      → read_le 8 mem loc ≡ some raw
      → chained64_next raw ≡ 0
      → IsChain mem loc ((loc, raw) ∷ [])
  more :
      {loc : ℕ} {es : List Link} (raw : ℕ)
      → read_le 8 mem loc ≡ some raw
      → chained64_next raw ≢ 0
      → IsChain mem (u64 (loc + chained64_next raw * 4)) es
      → IsChain mem loc ((loc, raw) ∷ es)

-- The eight bytes of a link and the `n` bytes at `p` have none in common.
abbrev pub IsApart : Link → (p n : ℕ) → Type 0
IsApart e p n = (e.0 + 8 ≤ p) ⊎ (p + n ≤ e.0)

-- No link lies in the `n` bytes at `p`.
abbrev pub AreApart : List Link → (p n : ℕ) → Type 0
AreApart es p n = All (λ e. IsApart e p n) es

-- No two links overlap.
abbrev pub AreSeparate : List Link → Type 0
AreSeparate [] = Unit {0}
AreSeparate (e ∷ es) = AreApart es e.0 8 × AreSeparate es

-- No link lies in a variable that holds a stream.
abbrev pub AreNoStreams : Host → List Link → Type 0
AreNoStreams h es =
    AreApart es (h.address_of stdinp) 8
    × AreApart es (h.address_of stdoutp) 8
    × AreApart es (h.address_of stderrp) 8

-- `a` is one of the bytes of a link.
abbrev pub IsByteOf : List Link → (a : ℕ) → Type 0
IsByteOf [] a = ⊥
IsByteOf (e ∷ es) a = ((e.0 ≤ a) × (a < e.0 + 8)) ⊎ IsByteOf es a

pub AreApart-byte : (es : List Link) (p n a : ℕ) → AreApart es p n → IsByteOf es a → IsOutside p n a
AreApart-byte [] p n a apart byte = absurd byte
AreApart-byte (e ∷ es) p n a (inl below, apart) (inl (from, upto)) = inl (omega arith)
AreApart-byte (e ∷ es) p n a (inr above, apart) (inl (from, upto)) = inr (omega arith)
AreApart-byte (e ∷ es) p n a (this, apart) (inr byte) = AreApart-byte es p n a apart byte

pub AreNoStreams-byte :
    (h : Host) (es : List Link) (a : ℕ) → AreNoStreams h es → IsByteOf es a → IsNoStream h a
AreNoStreams-byte h es a (stdin_apart, stdout_apart, stderr_apart) byte = (
  AreApart-byte es _ 8 a stdin_apart byte,
  AreApart-byte es _ 8 a stdout_apart byte,
  AreApart-byte es _ 8 a stderr_apart byte,
)

-- A chain is still there where its bytes are the same.
pub IsChain-congr :
    {mem : Mem} {loc : ℕ} {es : List Link} (mem' : Mem)
    → ((a : ℕ) → IsByteOf es a → mem' a ≡ mem a)
    → IsChain mem loc es
    → IsChain mem' loc es
IsChain-congr {mem} mem' same (last raw stored ends) =
    last raw (read_le-congr 8 mem' mem _ (λ a from upto. same a (inl (from, upto))) ∙ stored) ends
IsChain-congr {mem} mem' same (more raw stored goes_on rest) =
    more raw (read_le-congr 8 mem' mem _ (λ a from upto. same a (inl (from, upto))) ∙ stored)
      goes_on (IsChain-congr mem' (λ a byte. same a (inr byte)) rest)

module _ (h : Host) (base : ℕ) (hdr : ChainedFixupsHeader) where
  -- The pointers applied one after the other.
  unfoldable pub apply_all : List Link → Cmd (Unit {0})
  apply_all [] = unit
  apply_all (e ∷ es) = do _ ← apply_entry h base hdr e.0 e.1; apply_all es

  pub walk_chain-suc :
      (rounds loc : ℕ) {raw : ℕ} (m : Machine)
      → read_le 8 m.mem loc ≡ some raw
      → walk_chain h base hdr (suc rounds) loc m
        ≡ and_then (apply_entry h base hdr loc raw m) (λ _.
          when chained64_next raw == 0
          then unit
          else walk_chain h base hdr rounds (u64 (loc + chained64_next raw * 4)))
  unfolding walk_chain ◌>>=◌
  walk_chain-suc rounds loc m stored = rw (load64-mapped m loc stored) refl

  pub zero_test : {n : ℕ} → n ≡ 0 → (n == 0) ≡ true
  zero_test e = ground arith

  -- A walk of `rounds` rounds along a chain of rebases and binds applies the pointers of its first
  -- `rounds` links, each once, in the order of the chain, with the values that they had before the
  -- walk. That is so where no two links of the chain overlap, and none lies in a variable that the
  -- program keeps a standard stream in. A fault in a link ends both alike.
  pub walk_chain-IsChain :
      (rounds : ℕ) {loc : ℕ} {es : List Link} (m : Machine)
      → IsChain m.mem loc es
      → AreSeparate es
      → AreNoStreams h es
      → walk_chain h base hdr rounds loc m ≡ apply_all (take rounds es) m
  unfolding apply_all ◌>>=◌
  walk_chain-IsChain zero m chain separate no_streams = unfold walk_chain in refl
  walk_chain-IsChain (suc rounds) {loc} m (last raw stored ends) separate no_streams =
      walk_chain-suc rounds loc m stored
      ∙ rw (zero_test ends) (
          ap (λ es. and_then (apply_entry h base hdr loc raw m) (λ _. apply_all es))
            (sym (take-nil rounds)))
  walk_chain-IsChain (suc rounds) {loc} m (more {es} raw stored goes_on rest) (apart, separate)
        (i, o, e) =
      walk_chain-suc rounds loc m stored
      ∙ rw (==-of_ne (chained64_next raw) 0 goes_on) (
          and_then-congr (λ _ m'. SameOn (IsByteOf es) m m') (apply_entry h base hdr loc raw m) _ _
            ((Preserves-apply_entry h (λ a byte. AreNoStreams-byte h es a (i.1, o.1, e.1) byte) base
                hdr loc (λ a byte. AreApart-byte es loc 8 a apart byte) raw).run
              m)
            (λ _ m' (same, _, _).
              walk_chain-IsChain rounds m' (IsChain-congr m'.mem same rest) separate
                (i.1, o.1, e.1)))
