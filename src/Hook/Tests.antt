-- ===== src/Hook/Tests.antt =====
-- The hooks on a client that says "A" and leaves, and on an empty file.
use networking_programming.Base.{
  ℕ, suc, ◌≡◌, refl, Option, none, some, [], ◌∷◌, length, ◌==◌, if◌then◌else◌,
}
use networking_programming.Base.Int.{pos}
use networking_programming.Memory.{Bytes, ok, ◌>>=◌}
use networking_programming.Memory.Text.{codes}
use networking_programming.Net.Systems.{working, working-OsLaws}
use networking_programming.Thread.{client_thread}
use networking_programming.Hook.{
  Function, libc_read, libc_write, Libc, Hooks, entry, init_hook, init_hook_twice, use_file,
  no_hooks,
}
use networking_programming.Hook.Echo.{on_sockets, entry-client_thread}
use networking_programming.Hook.Wrong.{use_file-init_hook_twice}

-- "read" and "write" are told apart by their first letter.
abbrev lookup : Bytes → Option Function
lookup [] = none
lookup (c ∷ name) = if c == b'r' then some libc_read else some libc_write

entry-client_thread_example :
    (entry (on_sockets working lookup) 9 7 (init_hook (on_sockets working lookup) (no_hooks tt))
      >>= λ t. ok t.world)
    ≡ client_thread working 9 7 tt
entry-client_thread_example = entry-client_thread working lookup 7 working-OsLaws 9 tt refl refl

-- A library over an empty file: its state counts the calls of `write`.
abbrev empty_file : Libc
empty_file = record {
  World = ℕ;
  dlsym = lookup;
  read = λ fd n w. (pos 0, [], w);
  write = λ fd bytes w. (pos (length bytes), suc w);
  close = λ fd w. w;
}

use_file-init_hook_twice_example :
    (t : Hooks ℕ) × (use_file empty_file 3 (init_hook_twice empty_file (no_hooks 0)) ≡ ok t)
    × (t.printed ≡ codes "1234567890" ∷ [] ∷ [] ∷ [])
    × (t.world ≡ 0)
use_file-init_hook_twice_example = use_file-init_hook_twice empty_file 3 0 refl refl refl
