-- ===== src/Examples.antt =====
-- A host, files and machines to run the code on.
pub mod Files
pub mod Loading
pub mod Layout
pub mod Contents
pub mod Images
pub mod Calls
pub mod Pointers
pub mod Chains
pub mod Numbers
pub mod Binding
pub mod Naming
use maloader.Common.{
  ℕ, zero, suc, ◌+◌, ◌^◌, ◌≤◌, ◌<◌, ◌≡◌, ◌≢◌, refl, ap, Bool, true, false, ◌&&◌, Option, none, some,
  List, [], ◌∷◌, ◌++◌, ◌∙◌, sym, eq_of_==, ne_of_==, ◌==◌, leb, ltb, if◌then◌else◌, arith,
  Option-cases, Bool-cases, inl, inr, ◌⊎◌, codes, length,
}
use maloader.Machine.{Mem, MachContext, Machine, put_bytes, le_bytes}
use maloader.Machine.Memory.{put_bytes-outside}
use maloader.Machine.Evolves.{WellFormed}
use maloader.Host.{Host, MmapCall, MapsFresh, Stream, Shim}
use maloader.Program.{initial_context}

-- Whether the `n` addresses from `p` on are free.
unfoldable pub is_free : Mem → (p n : ℕ) → Bool
is_free mem p zero = true
is_free mem p (suc n) = elim (mem p) [ none ↦ is_free mem (p + 1) n | some b ↦ false ]

is_free-none : (mem : Mem) (n p a : ℕ) → is_free mem p n ≡ true → p ≤ a → a < p + n → mem a ≡ none
unfolding is_free
is_free-none mem zero p a free from upto = absurd (omega arith)
is_free-none mem (suc n) p a free from upto = elim (Option-cases (mem p)) [
  | inr (b, e) ↦ absurd (ground arith)
  | inl e ↦ elim (Bool-cases (p == a)) [
    | inl same ↦ ap mem (sym (eq_of_== p a same)) ∙ e
    | inr differs ↦
        let rest : is_free mem (p + 1) n ≡ true = ground arith in
        is_free-none mem n (p + 1) a rest (ground (arith, ne_of_== differs)) (omega arith)
  ]
]

abbrev pub base : ℕ
base = 0x100000

-- An allocator that maps at one place, where that is free.
unfoldable pub map_at_base : Mem → MmapCall → Option ℕ
unfolding is_free
map_at_base mem call =
    if leb (base + call.length) (2 ^ 64) && is_free mem base call.length then some base else none

-- The host knows `puts` in every library, and opens each.
unfoldable pub host : Host
unfolding map_at_base
host = record {
  map_file = λ _. some 0x1000;
  mmap = map_at_base;
  dlopen = λ _. 7;
  dlsym = λ handle name. 0x5000 + length name;
  address_of = λ _. 0x6000;
  stream = λ _. 0x7000;
}

map_at_base-some :
    (mem : Mem) (call : MmapCall) (p : ℕ)
    → map_at_base mem call ≡ some p
    → (p ≡ base) × (base + call.length ≤ 2 ^ 64) × (is_free mem base call.length ≡ true)
unfolding map_at_base
map_at_base-some mem call p e = elim (Bool-cases (leb (base + call.length) (2 ^ 64))) [
  | inr over ↦ absurd (ground arith)
  | inl within ↦ elim (Bool-cases (is_free mem base call.length)) [
    | inr taken ↦ absurd (ground arith)
    | inl free ↦ (ground arith, ground arith, free)
  ]
]

pub host-MapsFresh : MapsFresh host
unfolding host
host-MapsFresh = record {
  not_null = λ mem call p e z. let (at, _, _) = map_at_base-some mem call p e in omega arith;
  in_space = λ mem call p e. let (at, within, _) = map_at_base-some mem call p e in omega arith;
  fresh = λ mem call p a e from upto.
      let (at, _, free) = map_at_base-some mem call p e in
      is_free-none mem call.length base a free (omega arith) (omega arith);
}

abbrev pub nothing_mapped : Mem
nothing_mapped a = none

-- `bs` at `p` and nothing else, with a context that is new but for the file's place.
unfoldable pub machine_of : (p : ℕ) → List ℕ → Machine
unfolding put_bytes
machine_of p bs = record {
  mem = put_bytes nothing_mapped p bs;
  context = record (initial_context 2 0x800) { memblock = p };
  libc_handle = 0;
  libm_handle = 0;
}

pub machine_of-WellFormed :
    (p : ℕ) (bs : List ℕ) → p + length bs ≤ 2 ^ 64 → WellFormed (machine_of p bs)
unfolding machine_of
machine_of-WellFormed p bs fits = record {
  bounded = λ a above. put_bytes-outside nothing_mapped p bs a (inr (omega arith));
  table = omega arith;
}
