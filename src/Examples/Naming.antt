-- ===== src/Examples/Naming.antt =====
-- A bind by name at a concrete symbol.
use maloader.Bind.Bound.{bound, all_texts, do_bind-bound}
use maloader.Bind.Bindable.{Named, infos_of, IsSeparate, IsBindable, AreNamed}
use maloader.Host.{Host}
use maloader.Machine.Memory.{IsMapped, IsMapped-of_read}
use maloader.Common.{
  ◌<◌, ◌≡◌, refl, some, ◌++◌, codes, ◌==◌, if◌then◌else◌, arith, none, inl, inr, List, [], ◌∷◌,
  length, ℕ, ◌≤◌, ◌+◌, ◌*◌, All,
}
use maloader.Machine.{Machine, BindInfo, ok, read_bytes, read_le, text_eq, in_file}
use maloader.Machine.Stores.{with64}
use maloader.Imports.{skip_underscore, libc_name, libm_name}
use maloader.Bind.{bind_symbol, do_bind}
use maloader.Bind.Named.{HasText, value_of, bind_symbol-HasText}
use maloader.Examples.{host, machine_of}
use maloader.Examples.Files.{zeros}

-- The name `_mmap`, and a word to bind.
abbrev named : Machine
named = machine_of 0x4000 (codes "_mmap" ++ zeros 11)

abbrev info : BindInfo
info = record { func_name = 0x4000; address = 0x4008 }

name_there : HasText named 0x4000 (codes "_mmap")
unfolding machine_of read_bytes
name_there =
    (((λ e. cc), ((λ e. cc), ((λ e. cc), ((λ e. cc), ((λ e. cc), tt))))), refl, omega arith)

word_there : read_le 8 named.mem 0x4008 ≡ some 0
unfolding machine_of read_le
word_there = refl

above : named.context.img_addr < info.address
unfolding machine_of
above = omega arith

-- The wrapper's address is what the word holds afterwards.
wrapper_bound : value_of host 7 (skip_underscore (codes "_mmap")) ≡ 0x6000
unfolding host skip_underscore text_eq
wrapper_bound = refl

bind_symbol-HasText_example :
    bind_symbol host 7 info named
    ≡ ok tt (
        if value_of host 7 (skip_underscore (codes "_mmap")) == 0
        then named
        else with64 named info.address (value_of host 7 (skip_underscore (codes "_mmap"))))
bind_symbol-HasText_example =
    bind_symbol-HasText host 7 0 info (codes "_mmap") named name_there above word_there

-- libc and libm open, and both know every name; no other library opens.
abbrev two_libraries : Host
two_libraries = record {
  map_file = λ _. none;
  mmap = λ _ _. none;
  dlopen = λ text. if text_eq text libc_name then 7 else if text_eq text libm_name then 8 else 0;
  dlsym = λ handle name. 0x1000 * handle + length name;
  address_of = λ _. 0x6000;
  stream = λ _. 0x7000;
}

abbrev bind_bytes : List ℕ
bind_bytes = codes "_mmap" ++ zeros 3 ++ codes "_puts" ++ zeros 19 ++ codes "a" ++ zeros 7

-- The words of `_mmap` and `_puts`, and a library `a` that the file names.
abbrev to_bind : List Named
to_bind =
    (record { func_name = 0x4000; address = 0x4010 }, codes "_mmap")
    ∷ (record { func_name = 0x4008; address = 0x4018 }, codes "_puts")
    ∷ []

abbrev puts : Named
puts = (record { func_name = 0x4008; address = 0x4018 }, codes "_puts")

abbrev unbound : Machine
unbound = record (machine_of 0x4000 bind_bytes) {
  context = record (machine_of 0x4000 bind_bytes).context {
    b_list = infos_of to_bind;
    d_list = in_file 0x4020 ∷ [];
  };
}

words_read : (read_bytes unbound.mem 0x4010 16) ≡ some (zeros 16)
unfolding machine_of read_bytes
words_read = refl

word-IsMapped : (p : ℕ) → 0x4010 ≤ p → p + 8 ≤ 0x4020 → IsMapped unbound.mem p 8
word-IsMapped p from upto a at below =
    IsMapped-of_read unbound.mem 16 0x4010 words_read a (omega arith) (omega arith)

to_bind-IsSeparate : IsSeparate to_bind
to_bind-IsSeparate = ((inl (omega arith), tt), (tt, tt))

to_bind-IsBindable : All (IsBindable unbound.context.img_addr to_bind unbound.mem) to_bind
unfolding machine_of read_bytes
to_bind-IsBindable = (
  (
    omega arith,
    word-IsMapped 0x4010 (omega arith) (omega arith),
    (((λ e. cc), ((λ e. cc), ((λ e. cc), ((λ e. cc), ((λ e. cc), tt))))), refl, omega arith),
    (inl (omega arith), (inl (omega arith), tt)),
  ),
  (
    (
      omega arith,
      word-IsMapped 0x4018 (omega arith) (omega arith),
      (((λ e. cc), ((λ e. cc), ((λ e. cc), ((λ e. cc), ((λ e. cc), tt))))), refl, omega arith),
      (inl (omega arith), (inl (omega arith), tt)),
    ),
    tt,
  ),
)

a_named : AreNamed to_bind unbound.mem unbound.context.d_list (codes "a" ∷ [])
unfolding machine_of read_bytes
a_named = (((((λ e. cc), tt), refl, omega arith), (inr (omega arith), (inr (omega arith), tt))), tt)

puts_there : read_le 8 unbound.mem 0x4018 ≡ some 0
unfolding machine_of read_le
puts_there = refl

-- `_puts` is bound to what libm answers, the last library.
puts_bound : bound two_libraries (all_texts (codes "a" ∷ [])) (codes "_puts") 0 ≡ 0x8004
unfolding text_eq skip_underscore
puts_bound = refl

do_bind-bound_example :
    (m' : Machine) × (do_bind two_libraries unbound ≡ ok tt m')
    × (read_le 8 m'.mem 0x4018
        ≡ some (bound two_libraries (all_texts (codes "a" ∷ [])) (codes "_puts") 0))
do_bind-bound_example =
    do_bind-bound two_libraries 1 0 to_bind (codes "a" ∷ []) puts unbound refl to_bind-IsSeparate
      to_bind-IsBindable a_named refl puts_there
