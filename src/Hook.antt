-- ===== src/Hook.antt =====
-- 2.3.1-Coroutine/hook.c and hook-pthread.c, which replace `read` and `write` of the C library by
-- functions that print and call the library's, and the same part of 2.3.1-Coroutine/ucontext.c. The
-- loop of `main` in hook-pthread.c is in Thread/Accept. Hook/Echo compares the thread of hook-pthread.c
-- with that of multi-io.c, Hook/Wrong is about the mistake in ucontext.c.
pub mod Echo
pub mod Wrong
mod Tests
use networking_programming.Base.{
  ℕ, zero, suc, Option, none, some, List, [], ◌∷◌, ◌++◌, length, replicate,
}
use networking_programming.Base.Int.{ℤ, pos, negsuc}
use networking_programming.Memory.{
  Bytes, Outcome, ok, fault, timeout, ◌>>=◌, slice, patch, cstr, as_size,
}
use networking_programming.Memory.Text.{codes}
use networking_programming.Select.{buffer_size}

-- The functions of the C library that a pointer can hold.
pub data Function : Type 0 where
  libc_read libc_write : Function

-- `dlsym(RTLD_NEXT, name)`, and the functions, on a state of the system.
pub record Libc : Type 1 where
  pub World : Type 0
  pub dlsym : Bytes → Option Function
  pub read : ℕ → ℕ → World → ℤ × Bytes × World
  pub write : ℕ → Bytes → World → ℤ × World
  pub close : ℕ → World → World

-- The globals, and the texts that were printed.
pub record Hooks (World : Type 0) : Type 0 where
  pub read_f : Option Function
  pub write_f : Option Function
  pub printed : List Bytes
  pub world : World

-- `if (!f) f = dlsym(…)`
abbrev pub resolve : Option Function → Option Function → Option Function
resolve none found = found
resolve (some f) found = some f

module _ (libc : Libc) where
  open libc use {World}

  -- A call through a pointer, of whichever function it holds, with the array `buf`: what it returns,
  -- and what is then in the array.
  unfoldable pub call_pointer :
      Option Function → ℕ → Bytes → ℕ → Hooks World → Outcome (ℤ × Bytes × Hooks World)
  call_pointer none fd buf count s = fault
  call_pointer (some libc_read) fd buf count s =
      let (ret, bytes, w) = libc.read fd count s.world in
      patch buf 0 bytes >>= λ buf'. ok (ret, buf', record s { world = w })
  call_pointer (some libc_write) fd buf count s = slice buf 0 count >>= λ message.
      let (ret, w) = libc.write fd message s.world in ok (ret, buf, record s { world = w })

  -- `printf` of the text in an array.
  unfoldable pub print_buffer : Bytes → Hooks World → Outcome (Hooks World)
  print_buffer buf s = cstr buf >>= λ text. ok (record s { printed = s.printed ++ text ∷ [] })

  -- The hooked `read`
  unfoldable pub hook_read : ℕ → Bytes → ℕ → Hooks World → Outcome (ℤ × Bytes × Hooks World)
  hook_read fd buf count s = call_pointer s.read_f fd buf count s >>= λ (ret, buf', s1).
      print_buffer buf' s1 >>= λ s2. ok (ret, buf', s2)

  -- The hooked `write`
  unfoldable pub hook_write : ℕ → Bytes → ℕ → Hooks World → Outcome (ℤ × Bytes × Hooks World)
  hook_write fd buf count s = print_buffer buf s >>= λ s1. call_pointer s1.write_f fd buf count s1

  unfoldable pub init_hook : Hooks World → Hooks World
  init_hook s = record s {
    read_f = resolve s.read_f (libc.dlsym (codes "read"));
    write_f = resolve s.write_f (libc.dlsym (codes "write"));
  }

  -- A round of the loop of `entry` behind the call of `read`, and what follows. A count of -1
  -- becomes a `size_t` that `buffer` has no room for.
  unfoldable pub entry_answered :
      ℕ → ℤ → Bytes → Hooks World → (Hooks World → Outcome (Hooks World)) → Outcome (Hooks World)
  entry_answered clientfd (pos zero) buffer s rest =
      ok (record s { world = libc.close clientfd s.world })
  entry_answered clientfd (pos (suc k)) buffer s rest =
      hook_write clientfd buffer (suc k) s >>= λ (_, _, s'). rest s'
  entry_answered clientfd (negsuc n) buffer s rest = print_buffer buffer s >>= λ s1. fault

  -- `entry`, on fuel.
  unfoldable pub entry : ℕ → ℕ → Hooks World → Outcome (Hooks World)
  entry zero clientfd s = timeout
  entry (suc fuel) clientfd s =
      hook_read clientfd (replicate buffer_size 0) buffer_size s >>= λ (cnt, buffer, s1).
      entry_answered clientfd cnt buffer s1 (entry fuel clientfd)

  -- `init_hook` of ucontext.c
  unfoldable pub init_hook_twice : Hooks World → Hooks World
  init_hook_twice s = record s {
    read_f = resolve s.read_f (libc.dlsym (codes "read"));
    write_f = resolve s.write_f (libc.dlsym (codes "read"));
  }

  -- What `main` of ucontext.c does with its file, `fd`: the hooked calls and the last text.
  unfoldable pub use_file : ℕ → Hooks World → Outcome (Hooks World)
  use_file fd s =
      let text = codes "1234567890" in
      hook_write fd (text ++ 0 ∷ []) (length text) s >>= λ (_, _, s1).
      hook_read fd (replicate 128 0) 128 s1 >>= λ (_, buffer, s2). print_buffer buffer s2

-- Before `init_hook`.
abbrev pub no_hooks : {World : Type 0} → World → Hooks World
no_hooks w = record { read_f = none; write_f = none; printed = []; world = w }
