-- ===== src/Http/Setup/Socket.antt =====
-- The entry of the listening socket of `http-server.c`.
use networking_programming.Base.{
  ℕ, zero, suc, ◌<◌, ◌≡◌, refl, false, Option, none, some, lt→ltb, arith, ◌==◌, Bool-cases, inl,
  inr,
}
use networking_programming.Base.Int.{ℤ, pos, negsuc}
use networking_programming.Base.Words.{htons}
use networking_programming.Memory.{ok}
use networking_programming.Net.{Os, add, epollin, is_error}
use networking_programming.Http.{ConnItem, State, accept_cb, conn_len, store, set_event, failed}
use networking_programming.Http.Items.{IsItem}
use networking_programming.Http.Setup.{zero_item, watch, listening, set_up}

-- `socket` fails with -1, or returns a descriptor that `conn_list` has an entry for.
abbrev pub Opens : ℤ → Type 0
Opens (pos n) = n < conn_len
Opens (negsuc n) = n ≡ 0

-- Every entry is valid, and one of them accepts clients.
abbrev pub IsServing : (ℕ → ConnItem) → Type 0
IsServing conn_list =
    ((fd : ℕ) → IsItem (conn_list fd)) × (fd : ℕ) × ((conn_list fd).recv_t ≡ some accept_cb)

-- The server has returned, or serves.
abbrev pub IsReady : {W : Type 0} → Option (State W) → Type 0
IsReady none = Unit {0}
IsReady (some s) = IsServing s.conn_list

-- The entry that `main` writes.
abbrev listener : ℕ → ConnItem
listener fd = record zero_item { fd = fd; recv_t = some accept_cb }

listener-IsItem : (fd : ℕ) → IsItem (listener fd)
listener-IsItem fd = record {
  rbuffer = refl;
  wbuffer = refl;
  rlen = omega arith;
  wlen = omega arith;
}

zero_item-IsItem : IsItem zero_item
zero_item-IsItem = record { rbuffer = refl; wbuffer = refl; rlen = omega arith; wlen = omega arith }

store-IsServing : (fd : ℕ) → IsServing (store (λ j. zero_item) fd (listener fd))
store-IsServing fd = (entries, fd, itself)
  where
    entries : (j : ℕ) → IsItem (store (λ j. zero_item) fd (listener fd) j)
    entries j = elim (Bool-cases (fd == j)) [
      | inl same ↦ rw same (listener-IsItem fd)
      | inr other ↦ rw other zero_item-IsItem
    ]

    itself : (store (λ j. zero_item) fd (listener fd) fd).recv_t ≡ some accept_cb
    itself = ground arith

module _ (os : Os) (socket : os.World → ℤ × os.World) (bind : ℤ → ℕ → os.World → ℤ × os.World)
    (listen : ℤ → os.World → os.World) (epoll_create : os.World → ℤ × os.World) where
  open os use {World}

  watch-IsReady :
      (fd : ℕ) (s : State World)
      → IsServing s.conn_list
      → IsReady (watch os socket bind listen epoll_create fd s)
  unfolding watch
  watch-IsReady fd s serving = elim (Bool-cases (is_error (epoll_create s.world).0)) [
    | inl bad ↦ rw bad tt
    | inr fine ↦
        elim (Bool-cases (failed os (set_event os fd add epollin (epoll_create s.world).1).0)) [
          | inl bad ↦ rw (fine, bad) tt
          | inr added ↦ rw (fine, added) serving
        ]
  ]

  listening-IsReady :
      (fd : ℕ) (w : World)
      → fd < conn_len
      → (r : Option (State World)) × (listening os socket bind listen epoll_create (pos fd) w
          ≡ ok r)
        × IsReady r
  unfolding listening
  listening-IsReady fd w lt = (
    watch os socket bind listen epoll_create fd started,
    rw (lt→ltb fd conn_len lt) refl,
    watch-IsReady fd started (store-IsServing fd),
  )
    where
      started : State World
      started = record { conn_list = store (λ j. zero_item) fd (listener fd); world = w }

  by_socket :
      (sockfd : ℤ) (w : World)
      → Opens sockfd
      → is_error sockfd ≡ false
      → (r : Option (State World)) × (listening os socket bind listen epoll_create sockfd w ≡ ok r)
        × IsReady r
  by_socket (pos fd) w lt fine = listening-IsReady fd w lt
  by_socket (negsuc zero) w e fine = cc
  by_socket (negsuc (suc n)) w e fine = absurd (omega arith)

  -- If `socket` returns -1 or a descriptor below 1024, `main` comes to its loop or returns -1
  -- without undefined behaviour, whatever its other calls return. In its loop every entry is valid,
  -- and the callback of one is `accept_cb`.
  pub set_up-IsReady :
      (w : World)
      → Opens (socket w).0
      → (r : Option (State World)) × (set_up os socket bind listen epoll_create w ≡ ok r)
        × IsReady r
  unfolding set_up
  set_up-IsReady w opens = elim (Bool-cases (is_error (socket w).0)) [
    | inl bad ↦ (none, rw bad refl, tt)
    | inr fine ↦ elim (Bool-cases (is_error bound.0)) [
      | inl bad ↦ (none, rw (fine, bad) refl, tt)
      | inr named ↦
          let (r, e, ready) = by_socket (socket w).0 (listen (socket w).0 bound.1) opens fine in
          (r, rw (fine, named) e, ready)
    ]
  ]
    where
      bound : ℤ × World
      bound = bind (socket w).0 (htons 2048) (socket w).1
