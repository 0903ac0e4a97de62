-- ===== src/Host.antt =====
-- What the loader calls and does not implement: the file mapping of openExec, mmap, the dynamic
-- linker, and the addresses that the linker gave the program's own functions and variables.
use maloader.Common.{ℕ, ◌+◌, ◌≤◌, ◌<◌, ◌^◌, ◌≡◌, ◌≢◌, Option, none, some, List}
use maloader.Machine.{Mem}

-- The arguments of a call of mmap; `fd` is -1 and the offset 0 in each anonymous one.
pub record MmapCall : Type 0 where
  pub addr : ℕ
  pub length : ℕ
  pub prot : ℕ
  pub flags : ℕ

-- Functions and variables of bind.c whose addresses are handed to the loaded program.
pub data Shim : Type 0 where
  ns_get_environ darwin_error stack_chk_guard stdinp stdoutp stderrp : Shim
  chkstk_darwin darwin_check_fd_set_overflow memset_pattern16 h_errno : Shim
  atexit host_mmap_for_darwin guard : Shim

pub data Stream : Type 0 where
  stdin stdout stderr : Stream

pub record Host : Type 0 where
  -- open, fstat and mmap of a file: where its bytes are, or MAP_FAILED.
  pub map_file : List ℕ → Option ℕ
  -- mmap with MAP_ANON, in the address space as it is: a base, or MAP_FAILED.
  pub mmap : Mem → MmapCall → Option ℕ
  -- A handle, or NULL.
  pub dlopen : List ℕ → ℕ
  -- The address of a symbol in a library, or NULL.
  pub dlsym : ℕ → List ℕ → ℕ
  pub address_of : Shim → ℕ
  pub stream : Stream → ℕ

abbrev pub rtld_default : ℕ
rtld_default = 0

-- The documented behaviour of an anonymous mapping without MAP_FIXED: it lies in the address space,
-- not at NULL, and in the place of nothing that was mapped before.
pub record MapsFresh (h : Host) : Type 0 where
  pub not_null : (mem : Mem) (call : MmapCall) (base : ℕ) → h.mmap mem call ≡ some base → base ≢ 0
  pub in_space :
      (mem : Mem) (call : MmapCall) (base : ℕ)
      → h.mmap mem call ≡ some base
      → base + call.length ≤ 2 ^ 64
  pub fresh :
      (mem : Mem) (call : MmapCall) (base a : ℕ)
      → h.mmap mem call ≡ some base
      → base ≤ a
      → a < base + call.length
      → mem a ≡ none
