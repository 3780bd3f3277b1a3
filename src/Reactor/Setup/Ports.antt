-- ===== src/Reactor/Setup/Ports.antt =====
-- The entries of the listening sockets of `reactor.c`.
use networking_programming.Base.{
  ℕ, ◌≡◌, refl, false, some, arith, List, [], ◌∷◌, ◌==◌, Bool, true, if◌then◌else◌, if_either,
}
use networking_programming.Base.Int.{ℤ, negsuc}
use networking_programming.Memory.{fault}
use networking_programming.Net.{Os}
use networking_programming.Reactor.{ConnItem, State, accept_cb}
use networking_programming.Reactor.Items.{IsItem}
use networking_programming.Reactor.Setup.{zero_item, init_server, listening, listen_port}

-- A descriptor is one of these.
abbrev pub listed : List ℕ → ℕ → Bool
listed [] j = false
listed (fd ∷ fds) j = if fd == j then true else listed fds j

-- The entry of a listening socket.
abbrev pub listener : ℕ → ConnItem
listener fd = record zero_item { fd = fd; recv_t = some accept_cb }

-- The table that has the entries of these sockets, and is zero everywhere else.
abbrev pub listeners : List ℕ → ℕ → ConnItem
listeners fds j = if listed fds j then listener j else zero_item

zero_item-IsItem : IsItem zero_item
zero_item-IsItem = record { rbuffer = refl; wbuffer = refl; rlen = refl; wlen = omega arith }

-- Each entry of such a table is valid.
pub listeners-IsItem : (fds : List ℕ) (j : ℕ) → IsItem (listeners fds j)
listeners-IsItem fds j =
    if_either IsItem (listed fds j)
      (record { rbuffer = refl; wbuffer = refl; rlen = refl; wlen = omega arith }) zero_item-IsItem

module _ (os : Os) (socket : os.World → ℤ × os.World) (bind : ℤ → ℕ → os.World → ℤ × os.World)
    (listen : ℤ → os.World → os.World) (epoll_create : os.World → ℤ × os.World) where
  open os use {World}

  -- If `socket` fails, the round for a port writes to `connlist[-1]`, which is undefined behaviour.
  pub listen_port_fails :
      (port : ℕ) (s : State World)
      → (socket s.world).0 ≡ negsuc 0
      → listen_port os socket bind listen epoll_create port s ≡ fault
  unfolding listen_port init_server listening
  listen_port_fails port s e = rw e refl
