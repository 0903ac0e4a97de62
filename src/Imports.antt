-- ===== src/Imports.antt =====
-- The resolver of bind.c: the program's own shims, the normalisation of a Mach-O symbol name, the
-- order in which libraries are asked, and apply_chained_bind.
pub mod Evolution
pub mod Normalized
pub mod Lookup
pub mod Pattern
pub mod Flags
use maloader.Common.{
  ℕ, zero, suc, ◌+◌, ◌-◌, ◌^◌, bit_and, bit_or, ◌==◌, if◌then◌else◌, not, Option, none, some, List,
  [], ◌∷◌, codes, take,
}
use maloader.Machine.{
  when◌then◌else◌, Cmd, pure, unit, ◌>>=◌, ◌>>◌, get_mem, set_context, load8, store64, store_bytes,
  c_string, text_eq, u32, u64, Status, success, failure,
}
use maloader.Segments.{enter_mapping}
use maloader.Host.{
  Host, MmapCall, Shim, ns_get_environ, darwin_error, stack_chk_guard, stdinp, stdoutp, stderrp,
  chkstk_darwin, darwin_check_fd_set_overflow, memset_pattern16, h_errno, atexit, stdin, stdout,
  stderr, rtld_default,
}

abbrev pub darwin_map_anon : ℕ
darwin_map_anon = 0x1000

-- MAP_ANONYMOUS on Linux.
abbrev pub map_anonymous : ℕ
map_anonymous = 0x20

-- The `int` flags as a pattern of 32 bits.
unfoldable pub host_flags_of : ℕ → ℕ
host_flags_of flags =
    if not (bit_and flags darwin_map_anon == 0)
    then bit_or (bit_and flags (2 ^ 32 - 1 - darwin_map_anon)) map_anonymous
    else flags

-- An anonymous mapping; `fd` and `offset` are handed on, and have no part in one.
unfoldable pub host_mmap_for_darwin : Host → MmapCall → Cmd ℕ
unfolding host_flags_of enter_mapping
host_mmap_for_darwin h call = do
  mem ← get_mem
  enter_mapping call.length (h.mmap mem (record call { flags = host_flags_of call.flags }))

-- `d[i] = p[i & 15]` for `len` bytes, the next of them at `i`.
unfoldable pub memset_pattern16_loop : (rounds i d p : ℕ) → Cmd (Unit {0})
unfolding load8 store_bytes
memset_pattern16_loop zero i d p = unit
memset_pattern16_loop (suc rounds) i d p = do
  b ← load8 (p + bit_and i 15)
  _ ← store_bytes (d + i) (b ∷ [])
  memset_pattern16_loop rounds (i + 1) d p

unfoldable pub mal_memset_pattern16 : (dst pattern16 len : ℕ) → Cmd (Unit {0})
unfolding memset_pattern16_loop
mal_memset_pattern16 dst pattern16 len = memset_pattern16_loop len 0 dst pattern16

abbrev pub libc_name : List ℕ
libc_name = codes "libc.so.6"

abbrev pub libm_name : List ℕ
libm_name = codes "libm.so.6"

-- The static variables `libc_handle` and `libm_handle`.
unfoldable pub get_libc : Cmd ℕ
get_libc m = pure m.libc_handle m

unfoldable pub set_libc : ℕ → Cmd (Unit {0})
set_libc handle m = pure tt (record m { libc_handle = handle })

unfoldable pub get_libm : Cmd ℕ
get_libm m = pure m.libm_handle m

unfoldable pub set_libm : ℕ → Cmd (Unit {0})
set_libm handle m = pure tt (record m { libm_handle = handle })

-- A library is opened once, and tried again after a failure.
unfoldable pub open_host_libc : Host → Cmd ℕ
unfolding get_libc set_libc
open_host_libc h = do
  handle ← get_libc
  when not (handle == 0) then pure handle else (do set_libc (h.dlopen libc_name); get_libc)

unfoldable pub open_host_libm : Host → Cmd ℕ
unfolding get_libm set_libm
open_host_libm h = do
  handle ← get_libm
  when not (handle == 0) then pure handle else (do set_libm (h.dlopen libm_name); get_libm)

-- The text up to the first `c`, or all of it.
unfoldable pub until : ℕ → List ℕ → List ℕ
until c [] = []
until c (b ∷ bs) = if b == c then [] else b ∷ until c bs

unfoldable pub skip_underscore : List ℕ → List ℕ
skip_underscore [] = []
skip_underscore (b ∷ bs) = if b == b'_' then bs else b ∷ bs

-- `snprintf` keeps `out_size - 1` characters.
unfoldable pub normalize_macho_symbol_name : List ℕ → (out_size : ℕ) → List ℕ
unfolding until skip_underscore
normalize_macho_symbol_name macho_name out_size =
    until b'$' (take (out_size - 1) (skip_underscore macho_name))

-- The names that the resolver answers itself, in the order of its tests.
abbrev pub shim_names : List (List ℕ × Shim)
shim_names =
    (codes "_NSGetEnviron", ns_get_environ)
    ∷ (codes "__NSGetEnviron", ns_get_environ)
    ∷ (codes "__error", darwin_error)
    ∷ (codes "__stack_chk_guard", stack_chk_guard)
    ∷ (codes "__stdinp", stdinp)
    ∷ (codes "__stdoutp", stdoutp)
    ∷ (codes "__stderrp", stderrp)
    ∷ (codes "__chkstk_darwin", chkstk_darwin)
    ∷ (codes "__darwin_check_fd_set_overflow", darwin_check_fd_set_overflow)
    ∷ (codes "memset_pattern16", memset_pattern16)
    ∷ (codes "h_errno", h_errno)
    ∷ (codes "atexit", atexit)
    ∷ []

unfoldable pub find_shim : List ℕ → List (List ℕ × Shim) → Option Shim
unfolding text_eq
find_shim name [] = none
find_shim name ((text, shim) ∷ rest) = if text_eq name text then some shim else find_shim name rest

-- The three stream variables are set to the host's streams before their address is returned.
unfoldable pub use_shim : Host → Shim → Cmd ℕ
unfolding store64
use_shim h stdinp = do store64 (h.address_of stdinp) (h.stream stdin); pure (h.address_of stdinp)
use_shim h stdoutp = do
  store64 (h.address_of stdoutp) (h.stream stdout)
  pure (h.address_of stdoutp)
use_shim h stderrp = do
  store64 (h.address_of stderrp) (h.stream stderr)
  pure (h.address_of stderrp)
use_shim h shim = pure (h.address_of shim)

-- `sym = dlsym(handle, name)`, where the library is open.
unfoldable pub ask : Host → (handle : ℕ) → List ℕ → ℕ
ask h handle name = if handle == 0 then 0 else h.dlsym handle name

unfoldable pub lookup_host : Host → List ℕ → Cmd ℕ
unfolding open_host_libc open_host_libm ask
lookup_host h name = do
  libc ← open_host_libc h
  when not (ask h libc name == 0) then pure (ask h libc name) else (do
    libm ← open_host_libm h
    when not (ask h libm name == 0)
        then pure (ask h libm name)
        else pure (h.dlsym rtld_default name))

-- A name that is none of the shims' goes to the host's libraries.
unfoldable pub answer : Host → List ℕ → Option Shim → Cmd ℕ
unfolding use_shim lookup_host
answer h name none = lookup_host h name
answer h name (some shim) = use_shim h shim

unfoldable pub resolve_name : Host → List ℕ → Cmd ℕ
unfolding find_shim answer
resolve_name h name = answer h name (find_shim name shim_names)

-- The address that an import is bound to, or NULL. `namebuf` has 256 bytes.
unfoldable pub resolve_macho_import_symbol : Host → (macho_name : ℕ) → Cmd ℕ
unfolding normalize_macho_symbol_name resolve_name c_string
resolve_macho_import_symbol h macho_name =
    when macho_name == 0
    then pure 0
    else (do text ← c_string macho_name; resolve_name h (normalize_macho_symbol_name text 256))

-- `addend` is an int64_t as a pattern of 64 bits.
unfoldable pub apply_chained_bind : Host → (loc symbol_name addend : ℕ) → Cmd Status
unfolding resolve_macho_import_symbol store64
apply_chained_bind h loc symbol_name addend = do
  resolved ← resolve_macho_import_symbol h symbol_name
  set_context λ c. record c { chained_bind_count = u32 (c.chained_bind_count + 1) }
  when resolved == 0
      then (do
        set_context λ c. record c {
          chained_unresolved_bind_count = u32 (c.chained_unresolved_bind_count + 1);
        }
        pure failure)
      else (do store64 loc (u64 (resolved + addend)); pure success)
