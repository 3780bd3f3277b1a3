-- ===== src/Reactor/Echo.antt =====
-- What a client of `reactor.c` gets back, and what a failing `recv` does.
use networking_programming.Base.{ℕ, suc, ◌≤◌, ◌≡◌, [], length, arith}
use networking_programming.Base.Int.{pos, negsuc, ◌+ℤ◌}
use networking_programming.Memory.{Bytes, ok, fault}
use networking_programming.Memory.Laws.{slice-splice, patch-ok}
use networking_programming.Net.{Os, OsLaws, mod_event, epollin, epollout}
use networking_programming.Reactor.Items.{IsItem, echoing, received_lem}
use networking_programming.Reactor.{
  ConnItem, State, buffer_len, store, set_event, received, recv_callback, send_callback_of,
}

zero-add-negsuc : (n : ℕ) → pos 0 +ℤ negsuc n ≡ negsuc n
unfolding ◌+ℤ◌
zero-add-negsuc n = ground arith

store_self : (c : ℕ → ConnItem) (fd : ℕ) (item : ConnItem) → store c fd item fd ≡ item
store_self c fd item = ground arith

module _ (os : Os) (fd : ℕ) (s : State os.World) (item : IsItem (s.connlist fd)) where
  open os use {World}

  -- If the entry of `fd` is valid and `recv` fails, `recv_cb` is undefined behaviour.
  pub recv_callback_fails :
      OsLaws os
      → (k : ℕ) → (os.recv fd buffer_len s.world).0 ≡ negsuc k
      → recv_callback os fd s ≡ fault
  unfolding recv_callback received
  recv_callback_fails laws k e =
      rw (item.rlen, e, laws.recv_failure fd buffer_len s.world k e)
        (rw (
          patch-ok (s.connlist fd).rbuffer 0 [] (omega (arith, item.rbuffer)),
          item.rlen,
          zero-add-negsuc k,
        ))

  -- If the entry of `fd` is valid and `recv` returns a positive count, `recv_cb` returns that
  -- count, and the next `send_cb` on `fd`, in whatever state of the system, hands exactly the bytes
  -- received to `send`, asks for EPOLLIN again and returns what `send` returned.
  pub send_callback-recv_callback :
      OsLaws os
      → (k : ℕ) → (os.recv fd buffer_len s.world).0 ≡ pos (suc k)
      → (t : State World) × (recv_callback os fd s ≡ ok (pos (suc k), t))
        × ((u : World)
            → send_callback_of os fd (record t { world = u }) ≡ (
                let (cnt, w) = os.send fd (os.recv fd buffer_len s.world).1 u in
                ok (cnt, record t { world = (set_event os fd mod_event epollin w).1 })))
  unfolding recv_callback send_callback_of
  send_callback-recv_callback laws k e = (
    record {
      connlist = store s.connlist fd after;
      world = (set_event os fd mod_event epollout s'.world).1;
    },
    rw (item.rlen, e) (received_lem os fd k bytes s' item size fits),
    λ u.
        rw (store_self s.connlist fd after) (
          rw (slice-splice (s.connlist fd).wbuffer bytes size (omega (arith, item.wbuffer, fits)))),
  )
    where
      bytes : Bytes
      bytes = (os.recv fd buffer_len s.world).1

      size : length bytes ≡ suc k
      size = (laws.recv_count fd buffer_len s.world (suc k) e).0

      fits : suc k ≤ buffer_len
      fits = (laws.recv_count fd buffer_len s.world (suc k) e).1

      after : ConnItem
      after = echoing (s.connlist fd) bytes (suc k)

      s' : State World
      s' = record s { world = (os.recv fd buffer_len s.world).2 }
