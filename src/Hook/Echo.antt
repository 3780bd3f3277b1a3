-- ===== src/Hook/Echo.antt =====
-- The thread of hook-pthread.c, with its hooks, and that of multi-io.c.
use networking_programming.Base.{
  ℕ, zero, suc, ◌+◌, ◌≤◌, ◌≡◌, refl, Option, some, [], ◌∷◌, ◌++◌, length, replicate, arith,
}
use networking_programming.Base.Int.{ℤ, pos, negsuc}
use networking_programming.Memory.{
  Bytes, Outcome, ok, fault, timeout, ◌>>=◌, splice, patch, slice, cstr,
}
use networking_programming.Memory.Laws.{patch-ok, slice-splice}
use networking_programming.Memory.Text.{codes, cstr-short}
use networking_programming.Net.{Os, OsLaws}
use networking_programming.Select.{buffer_size}
use networking_programming.Thread.{echo, answered, client_thread}
use networking_programming.Hook.{
  Function, libc_read, libc_write, Libc, Hooks, call_pointer, print_buffer, hook_read, hook_write,
  init_hook, entry_answered, entry, no_hooks,
}

-- Documented of a socket: `read` and `write` do what `recv` and `send` do without flags.
abbrev pub on_sockets : Os → (Bytes → Option Function) → Libc
on_sockets os dlsym = record {
  World = os.World;
  dlsym = dlsym;
  read = os.recv;
  write = os.send;
  close = os.close;
}

abbrev zeros : Bytes
zeros = replicate buffer_size 0

module _ (os : Os) (dlsym : Bytes → Option Function) (clientfd : ℕ) where
  open os use {World}

  abbrev libc : Libc
  libc = on_sockets os dlsym

  -- The pointers are as `init_hook` should leave them.
  record IsReady (s : Hooks World) : Type 0 where
    reads : s.read_f ≡ some libc_read
    writes : s.write_f ≡ some libc_write

  abbrev world_of : Outcome (Hooks World) → Outcome World
  world_of m = m >>= λ s. ok s.world

  -- What is printed changes nothing else.
  abbrev with_text : Bytes → Hooks World → Hooks World
  with_text text s = record s { printed = s.printed ++ text ∷ [] }

  -- A round of `entry` behind the call of the library's `read`.
  abbrev printed_then :
      ℤ → Bytes → Hooks World → (Hooks World → Outcome (Hooks World)) → Outcome (Hooks World)
  printed_then cnt buf s rest =
      (print_buffer libc buf s >>= λ s1. ok (cnt, buf, s1)) >>= λ (cnt, buf, s1).
      entry_answered libc clientfd cnt buf s1 rest

  write-echo :
      (k : ℕ) (buf bytes : Bytes) (m : Outcome Bytes) (s : Hooks World)
      (rest : Hooks World → Outcome (Hooks World)) (rest' : World → Outcome World)
      → IsReady s
      → ((t : Hooks World) → IsReady t → world_of (rest t) ≡ rest' t.world)
      → cstr buf ≡ m
      → patch zeros 0 bytes ≡ ok buf
      → slice buf 0 (suc k) ≡ ok bytes
      → world_of (printed_then (pos (suc k)) buf s rest)
        ≡ answered os clientfd (pos (suc k)) bytes s.world rest'
  unfolding entry_answered answered echo hook_write print_buffer call_pointer
  write-echo k buf bytes (ok text) s rest rest' ready same found room sent =
      rw (found, room, sent, ready.writes, found, sent)
        (same
          (record s {
            write_f = some libc_write;
            printed = s.printed ++ text ∷ [] ++ text ∷ [];
            world = (os.send clientfd bytes s.world).1;
          })
          (record { reads = ready.reads; writes = refl }))
  write-echo k buf bytes fault s rest rest' ready same found room sent =
      rw (found, room, sent, found) refl
  write-echo k buf bytes timeout s rest rest' ready same found room sent =
      rw (found, room, sent, found) refl

  -- What `recv` gives fits into `buffer`, and a count is its length.
  module _ (laws : OsLaws os) where
    turn :
        (cnt : ℤ) (bytes : Bytes) (s : Hooks World) (rest : Hooks World → Outcome (Hooks World))
        (rest' : World → Outcome World)
        → IsReady s
        → ((t : Hooks World) → IsReady t → world_of (rest t) ≡ rest' t.world)
        → ((k : ℕ) → cnt ≡ pos k → (length bytes ≡ k) × (k ≤ buffer_size))
        → ((k : ℕ) → cnt ≡ negsuc k → bytes ≡ [])
        → world_of (
            ((patch zeros 0 bytes >>= λ buf. ok (cnt, buf, s)) >>= λ (cnt, buf, s1).
            print_buffer libc buf s1 >>= λ s2. ok (cnt, buf, s2))
            >>= λ (cnt, buf, s1). entry_answered libc clientfd cnt buf s1 rest)
          ≡ answered os clientfd cnt bytes s.world rest'
    unfolding answered entry_answered print_buffer
    turn (pos zero) bytes s rest rest' ready same size empty =
        let (len, fits) = size 0 refl in
        let (text, found) = cstr-short buffer_size bytes (omega arith) in
        rw (patch-ok zeros 0 bytes (omega arith), found) refl
    turn (pos (suc k)) bytes s rest rest' ready same size empty =
        let (len, fits) = size (suc k) refl in
        let room : 0 + length bytes ≤ length zeros = omega arith in
        rw (patch-ok zeros 0 bytes room) (
          write-echo k (splice zeros 0 bytes) bytes (cstr (splice zeros 0 bytes)) s rest rest' ready
            same refl (patch-ok zeros 0 bytes room) (slice-splice zeros bytes len fits))
    turn (negsuc n) bytes s rest rest' ready same size empty =
        let (text, found) = cstr-short buffer_size [] (omega arith) in
        rw (empty n refl, patch-ok zeros 0 [] (omega arith), found, found) refl

    entry-loop :
        (fuel : ℕ) (s : Hooks World)
        → IsReady s
        → world_of (entry libc fuel clientfd s) ≡ client_thread os fuel clientfd s.world
    unfolding entry client_thread hook_read call_pointer
    entry-loop zero s ready = refl
    entry-loop (suc fuel) s ready = rw ready.reads (
        turn (os.recv clientfd buffer_size s.world).0 (os.recv clientfd buffer_size s.world).1
          (record s { read_f = some libc_read; world = (os.recv clientfd buffer_size s.world).2 })
          (entry libc fuel clientfd) (client_thread os fuel clientfd)
          (record { reads = refl; writes = ready.writes }) (λ t ok_t. entry-loop fuel t ok_t)
          (laws.recv_count clientfd buffer_size s.world)
          (laws.recv_failure clientfd buffer_size s.world))

    -- If `dlsym` finds the library's `read` and `write`, and `recv` gives what is documented, then,
    -- behind `init_hook`, `entry` and the `client_thread` of multi-io.c on the same descriptor,
    -- with the same fuel, come to the same: both to the end with the same calls behind them, or
    -- both to undefined behaviour, or both out of fuel.
    pub entry-client_thread :
        (fuel : ℕ) (w : World)
        → dlsym (codes "read") ≡ some libc_read
        → dlsym (codes "write") ≡ some libc_write
        → (entry libc fuel clientfd (init_hook libc (no_hooks w)) >>= λ t. ok t.world)
          ≡ client_thread os fuel clientfd w
    unfolding init_hook
    entry-client_thread fuel w reads writes =
        entry-loop fuel (init_hook libc (no_hooks w)) (record { reads = reads; writes = writes })
