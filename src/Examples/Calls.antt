-- ===== src/Examples/Calls.antt =====
-- Calls of bind.c's functions by a loaded program.
use maloader.Host.{MmapCall}
use maloader.Common.{List, [], ◌∷◌, ◌++◌}
use maloader.Machine.{Machine}
use maloader.Shims.{
  Libc, Call, call_atexit, call_error, call_guard, call_memset_pattern16, call_mmap,
}
use maloader.Examples.{machine_of}
use maloader.Examples.Files.{zeros, ascending}

abbrev libc : Libc
libc = record {
  environ = 0x7100;
  errno_location = 0x7200;
  at_exit = λ func. 0;
  guard_array = 0x4020;
}

-- A pattern at 0x4000, a block at 0x4010, and the guard at 0x4020.
abbrev running : Machine
running = machine_of 0x4000 (ascending 0 16 ++ zeros 32)

-- MAP_ANON | MAP_PRIVATE of Darwin.
abbrev pages : MmapCall
pages = record { addr = 0; length = 0x1000; prot = 3; flags = 0x1002 }

abbrev calls : List Call
calls =
    call_atexit 0x6000
    ∷ call_memset_pattern16 0x4010 0x4000 16
    ∷ call_guard
    ∷ call_mmap pages
    ∷ call_error
    ∷ []
