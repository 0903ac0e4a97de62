-- ===== src/Shims.antt =====
-- The bodies of the functions of bind.c that the loaded program calls, and the program's calls of
-- them.
pub mod Confined
use maloader.Common.{ℕ, List, [], ◌∷◌}
use maloader.Machine.{Cmd, pure, unit, ◌>>=◌, ◌>>◌, store64}
use maloader.Host.{Host, MmapCall}
use maloader.Imports.{mal_memset_pattern16, host_mmap_for_darwin}

-- What the C library gives them: the addresses of `environ` and `errno`, and the result of `atexit`.
pub record Libc : Type 0 where
  pub environ : ℕ
  pub errno_location : ℕ
  pub at_exit : (func : ℕ) → ℕ
  -- Where `__stack_chk_guard` of bind.h lies.
  pub guard_array : ℕ

unfoldable pub mal_atexit : Libc → (func : ℕ) → Cmd ℕ
mal_atexit libc func = pure (libc.at_exit func)

unfoldable pub mal_darwin_error : Libc → Cmd ℕ
mal_darwin_error libc = pure libc.errno_location

unfoldable pub mal_ns_get_environ : Libc → Cmd ℕ
mal_ns_get_environ libc = pure libc.environ

unfoldable pub mal_chkstk_darwin : Cmd (Unit {0})
mal_chkstk_darwin = unit

unfoldable pub mal_darwin_check_fd_set_overflow : (fd set write : ℕ) → Cmd ℕ
mal_darwin_check_fd_set_overflow fd set write = pure 0

-- `__stack_chk_guard[0] = 1`; a `long` has 64 bits.
unfoldable pub guard : Libc → Cmd (Unit {0})
unfolding store64
guard libc = store64 libc.guard_array 1

-- A call by the loaded program.
pub data Call : Type 0 where
  call_atexit : (func : ℕ) → Call
  call_error call_ns_get_environ call_chkstk call_guard : Call
  call_fd_set : (fd set write : ℕ) → Call
  call_memset_pattern16 : (dst pattern16 len : ℕ) → Call
  -- Of memory, without MAP_FIXED.
  call_mmap : MmapCall → Call

-- The result is 0 for a call that has none.
unfoldable pub run_call : Host → Libc → Call → Cmd ℕ
unfolding mal_atexit mal_darwin_error mal_ns_get_environ mal_chkstk_darwin
    mal_darwin_check_fd_set_overflow guard mal_memset_pattern16 host_mmap_for_darwin
run_call h libc (call_atexit func) = mal_atexit libc func
run_call h libc call_error = mal_darwin_error libc
run_call h libc call_ns_get_environ = mal_ns_get_environ libc
run_call h libc call_chkstk = do mal_chkstk_darwin; pure 0
run_call h libc call_guard = do guard libc; pure 0
run_call h libc (call_fd_set fd set write) = mal_darwin_check_fd_set_overflow fd set write
run_call h libc (call_memset_pattern16 dst pattern16 len) = do
  mal_memset_pattern16 dst pattern16 len
  pure 0
run_call h libc (call_mmap call) = host_mmap_for_darwin h call

unfoldable pub run_calls : Host → Libc → List Call → Cmd (Unit {0})
unfolding run_call
run_calls h libc [] = unit
run_calls h libc (call ∷ calls) = do _ ← run_call h libc call; run_calls h libc calls
