-- ===== src/Fixups/Chain.antt =====
-- The walk along a chain of rebases (main.c, dump_chained_64_offset_entries) against a list of its
-- entries.
use maloader.Common.{
  ℕ, zero, suc, ◌+◌, ◌*◌, ◌^◌, ◌≤◌, ◌<◌, ◌≡◌, refl, ap, ◌∙◌, sym, arith, false, some, List, [], ◌∷◌,
  length, take, ◌==◌, ==-of_ne, inl, inr, true, take-nil, get_elem?, Option, take-all,
}
use maloader.Machine.{
  Mem, Machine, ok, put_bytes, le_bytes, read_le, u64, u32, ◌>>=◌, when◌then◌else◌, unit,
}
use maloader.Machine.Memory.{read_le-put_bytes, read_le-put_bytes_apart, length-le_bytes}
use maloader.Machine.Stores.{store64-mapped, load64-mapped}
use maloader.Host.{Host}
use maloader.Formats.Fixups.{ChainedFixupsHeader}
use maloader.Fixups.{
  chained64_is_bind, chained64_rebase_target, chained64_next, apply_chained_64_offset_rebase,
  apply_entry, walk_chain,
}

-- A location, and the target that its pointer names.
abbrev pub Entry : Type 0
Entry = ℕ × ℕ

-- `es` are the entries of the chain of rebases that starts at `loc`, each at least eight bytes behind
-- the one before.
pub data IsRebaseChain (mem : Mem) : ℕ → List Entry → Type 0 where
  last :
      {loc : ℕ} (raw : ℕ)
      → read_le 8 mem loc ≡ some raw
      → chained64_is_bind raw ≡ false
      → chained64_next raw ≡ 0
      → IsRebaseChain mem loc ((loc, chained64_rebase_target raw) ∷ [])
  more :
      {loc : ℕ} {es : List Entry} (raw : ℕ)
      → read_le 8 mem loc ≡ some raw
      → chained64_is_bind raw ≡ false
      → 2 ≤ chained64_next raw
      → loc + chained64_next raw * 4 < 2 ^ 64
      → IsRebaseChain mem (loc + chained64_next raw * 4) es
      → IsRebaseChain mem loc ((loc, chained64_rebase_target raw) ∷ es)

-- The image at `img` with each location of `es` set to the address of its target.
unfoldable pub rebase_all : (img : ℕ) → List Entry → Mem → Mem
unfolding put_bytes le_bytes
rebase_all img [] mem = mem
rebase_all img ((loc, target) ∷ es) mem =
    rebase_all img es (put_bytes mem loc (le_bytes 8 (u64 (img + target))))

-- The machine behind the application of `es`.
abbrev pub rebased : List Entry → Machine → Machine
rebased es m = record m {
  mem = rebase_all m.context.img_addr es m.mem;
  context = record m.context {
    chained_rebase_count = u32 (m.context.chained_rebase_count + length es);
  };
}

abbrev counting : Machine → Mem → ℕ → Machine
counting m mem n = record m { mem = mem; context = record m.context { chained_rebase_count = n } }

rebased-nil : (m : Machine) → m.context.chained_rebase_count < 2 ^ 32 → rebased [] m ≡ m
unfolding rebase_all
rebased-nil m counted =
    let same : u32 (m.context.chained_rebase_count + 0) ≡ m.context.chained_rebase_count =
      omega arith in
    ap (counting m m.mem) same

rebased-cons :
    (e : Entry) (es : List Entry) (m : Machine)
    → rebased es (rebased (e ∷ []) m) ≡ rebased (e ∷ es) m
unfolding rebase_all
rebased-cons e es m =
    let count = m.context.chained_rebase_count in
    let same : u32 (u32 (count + 1) + length es) ≡ u32 (count + suc (length es)) = omega arith in
    ap (counting m (rebase_all m.context.img_addr (e ∷ es) m.mem)) same

spared :
    (mem : Mem) (q v : ℕ) {loc raw : ℕ}
    → q + 8 ≤ loc
    → read_le 8 mem loc ≡ some raw
    → read_le 8 (put_bytes mem q (le_bytes 8 v)) loc ≡ some raw
spared mem q v {loc} below stored =
    read_le-put_bytes_apart 8 mem q (le_bytes 8 v) loc (inr (rw (length-le_bytes 8 v) below))
    ∙ stored

-- A store below a chain leaves it as it is.
IsRebaseChain-below :
    {mem : Mem} {loc : ℕ} {es : List Entry} (q v : ℕ)
    → q + 8 ≤ loc
    → IsRebaseChain mem loc es
    → IsRebaseChain (put_bytes mem q (le_bytes 8 v)) loc es
IsRebaseChain-below q v below (last raw stored is_rebase ends) =
    last raw (spared _ q v below stored) is_rebase ends
IsRebaseChain-below q v below (more raw stored is_rebase apart inside rest) =
    more raw (spared _ q v below stored) is_rebase apart inside
      (IsRebaseChain-below q v (omega arith) rest)

module _ (h : Host) (base : ℕ) (hdr : ChainedFixupsHeader) where
  apply_entry-rebase :
      (loc raw : ℕ) (m : Machine)
      → read_le 8 m.mem loc ≡ some raw
      → chained64_is_bind raw ≡ false
      → apply_entry h base hdr loc raw m
        ≡ ok tt (rebased ((loc, chained64_rebase_target raw) ∷ []) m)
  unfolding apply_entry rebase_all apply_chained_64_offset_rebase ◌>>=◌
  apply_entry-rebase loc raw m stored is_rebase =
      let done =
        store64-mapped m loc (u64 (m.context.img_addr + chained64_rebase_target raw)) stored in
      ground (arith, done, is_rebase)

  zero_test : {n : ℕ} → n ≡ 0 → (n == 0) ≡ true
  zero_test e = ground arith

  in_space : {n : ℕ} → n < 2 ^ 64 → u64 n ≡ n
  in_space small = omega arith

  walk_chain-suc :
      (rounds loc : ℕ) {raw : ℕ} (m : Machine) {m' : Machine}
      → read_le 8 m.mem loc ≡ some raw
      → apply_entry h base hdr loc raw m ≡ ok tt m'
      → walk_chain h base hdr (suc rounds) loc m
        ≡ (when chained64_next raw == 0
              then unit
              else walk_chain h base hdr rounds (u64 (loc + chained64_next raw * 4)))
            m'
  unfolding walk_chain ◌>>=◌
  walk_chain-suc rounds loc m stored applied = rw (load64-mapped m loc stored, applied) refl

  -- A walk of `rounds` rounds applies the first `rounds` rebases of a chain, one after the other,
  -- and counts them modulo 2 ^ 32, for a count that is a 32-bit number before; what lies behind
  -- them in the chain is left as it is.
  pub walk_chain-IsRebaseChain :
      (rounds : ℕ) {loc : ℕ} {es : List Entry} (m : Machine)
      → m.context.chained_rebase_count < 2 ^ 32
      → IsRebaseChain m.mem loc es
      → walk_chain h base hdr rounds loc m ≡ ok tt (rebased (take rounds es) m)
  unfolding walk_chain ◌>>=◌ rebase_all
  walk_chain-IsRebaseChain zero m counted chain = ap (ok tt) (sym (rebased-nil m counted))
  walk_chain-IsRebaseChain (suc rounds) {loc} m counted (last raw stored is_rebase ends) =
      let m' = rebased ((loc, chained64_rebase_target raw) ∷ []) m in
      let tail = walk_chain h base hdr rounds (u64 (loc + chained64_next raw * 4)) in
      walk_chain-suc rounds loc m stored (apply_entry-rebase loc raw m stored is_rebase)
      ∙ ap (λ b. (when b then unit else tail) m') (zero_test ends)
      ∙ ap (λ es. ok tt (rebased ((loc, chained64_rebase_target raw) ∷ es) m))
          (sym (take-nil rounds))
  walk_chain-IsRebaseChain (suc rounds) {loc} m counted
        (more {es} raw stored is_rebase apart inside rest) =
      let m' = rebased ((loc, chained64_rebase_target raw) ∷ []) m in
      let next = loc + chained64_next raw * 4 in
      let below : loc + 8 ≤ next = omega arith in
      walk_chain-suc rounds loc m stored (apply_entry-rebase loc raw m stored is_rebase)
      ∙ ap (λ b. (when b then unit else walk_chain h base hdr rounds (u64 next)) m')
          (==-of_ne (chained64_next raw) 0 (ground arith))
      ∙ ap (λ p. walk_chain h base hdr rounds p m') (in_space inside)
      ∙ walk_chain-IsRebaseChain rounds m' (omega arith) (IsRebaseChain-below loc _ below rest)
      ∙ ap (ok tt) (rebased-cons _ (take rounds es) m)

-- The stores of a chain leave what lies below it.
rebase_all-below :
    {mem : Mem} {loc : ℕ} {es : List Entry} (img q : ℕ) (mem' : Mem)
    → IsRebaseChain mem loc es
    → q + 8 ≤ loc
    → read_le 8 (rebase_all img es mem') q ≡ read_le 8 mem' q
unfolding rebase_all
rebase_all-below {loc} img q mem' (last raw stored is_rebase ends) below =
    read_le-put_bytes_apart 8 mem' loc (le_bytes 8 _) q (inl below)
rebase_all-below {loc} img q mem' (more raw stored is_rebase apart inside rest) below =
    rebase_all-below img q _ rest (omega arith)
    ∙ read_le-put_bytes_apart 8 mem' loc (le_bytes 8 _) q (inl below)

entry_found :
    (read : ℕ → Option ℕ) (img : ℕ) {loc t at target : ℕ}
    → ◌≡◌ {A = Option Entry} (some (loc, t)) (some (at, target))
    → read loc ≡ some (u64 (img + t))
    → read at ≡ some (u64 (img + target))
entry_found read img found e = ground arith

-- Behind the rebases of a chain, each of its locations holds the image's address plus its target.
pub rebase_all-IsRebaseChain :
    (i : ℕ) {loc : ℕ} {es : List Entry} (mem mem' : Mem) (img at target : ℕ)
    → IsRebaseChain mem loc es
    → get_elem? es i ≡ some (at, target)
    → read_le 8 (rebase_all img es mem') at ≡ some (u64 (img + target))
unfolding rebase_all
rebase_all-IsRebaseChain zero mem mem' img at target (last raw stored is_rebase ends) found =
    entry_found (read_le 8 _) img found (read_le-put_bytes mem' _ _ (omega arith))
rebase_all-IsRebaseChain (suc i) mem mem' img at target (last raw stored is_rebase ends) found =
    absurd (cc found)
rebase_all-IsRebaseChain zero mem mem' img at target (more raw stored is_rebase apart inside rest)
      found =
    entry_found (read_le 8 _) img found
      (rebase_all-below img _ _ rest (omega arith) ∙ read_le-put_bytes mem' _ _ (omega arith))
rebase_all-IsRebaseChain (suc i) mem mem' img at target
      (more raw stored is_rebase apart inside rest) found =
    rebase_all-IsRebaseChain i mem _ img at target rest found

-- A chain of rebases that the rounds suffice for is applied as a whole: the walk returns, and
-- behind it each location of the chain holds the image's address plus the target that its pointer
-- named, modulo 2 ^ 64.
pub walk_chain-entries :
    (h : Host) (base : ℕ) (hdr : ChainedFixupsHeader) (rounds i loc at target : ℕ) (es : List Entry)
    (m : Machine)
    → m.context.chained_rebase_count < 2 ^ 32
    → IsRebaseChain m.mem loc es
    → length es ≤ rounds
    → get_elem? es i ≡ some (at, target)
    → (m' : Machine) × (walk_chain h base hdr rounds loc m ≡ ok tt m')
      × (read_le 8 m'.mem at ≡ some (u64 (m.context.img_addr + target)))
walk_chain-entries h base hdr rounds i loc at target es m counted chain enough found = (
  rebased es m,
  walk_chain-IsRebaseChain h base hdr rounds m counted chain
      ∙ ap (λ l. ok tt (rebased l m)) (take-all rounds es enough),
  rebase_all-IsRebaseChain i m.mem m.mem m.context.img_addr at target chain found,
)
