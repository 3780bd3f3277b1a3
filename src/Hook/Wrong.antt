-- ===== src/Hook/Wrong.antt =====
-- `init_hook` of ucontext.c looks up "read" twice.
use networking_programming.Base.{ℕ, ◌≡◌, refl, some, [], ◌∷◌}
use networking_programming.Memory.{ok, patch, splice, overwrite, cstr}
use networking_programming.Memory.Text.{codes}
use networking_programming.Hook.{
  libc_read, Libc, Hooks, call_pointer, print_buffer, hook_read, hook_write, init_hook_twice,
  use_file, no_hooks,
}

module _ (libc : Libc) where
  open libc use {World}

  -- If `dlsym` finds the library's `read`, and the two calls of it give nothing, as on an empty
  -- file, then `main` of ucontext.c prints "1234567890" and two empty texts, and has called `read`
  -- twice and nothing else.
  pub use_file-init_hook_twice :
      (fd : ℕ) (w : World)
      → libc.dlsym (codes "read") ≡ some libc_read
      → (libc.read fd 10 w).1 ≡ []
      → (libc.read fd 128 (libc.read fd 10 w).2).1 ≡ []
      → (t : Hooks World) × (use_file libc fd (init_hook_twice libc (no_hooks w)) ≡ ok t)
        × (t.printed ≡ codes "1234567890" ∷ [] ∷ [] ∷ [])
        × (t.world ≡ (libc.read fd 128 (libc.read fd 10 w).2).2)
  unfolding use_file init_hook_twice hook_read hook_write print_buffer call_pointer patch splice
      overwrite cstr
  use_file-init_hook_twice fd w found first second = (
    record {
      read_f = some libc_read;
      write_f = some libc_read;
      printed = codes "1234567890" ∷ [] ∷ [] ∷ [];
      world = (libc.read fd 128 (libc.read fd 10 w).2).2;
    },
    rw (found, first, second) refl,
    refl,
    refl,
  )
