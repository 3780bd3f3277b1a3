-- ===== src/Http/Tests.antt =====
-- The page server on concrete systems.
use networking_programming.Base.{
  ℕ, ◌+◌, ◌≤◌, ◌<◌, ◌≡◌, refl, true, false, some, [], ◌∷◌, length, arith, replicate,
}
use networking_programming.Base.Int.{ℤ, pos}
use networking_programming.Memory.{ok, patch, splice, overwrite}
use networking_programming.Net.{EpollEvent}
use networking_programming.Net.Systems.{working, working-OsLaws, broken, broken-OsLaws}
use networking_programming.Http.{
  ConnItem, State, recv_cb, send_cb, buffer_len, recv_callback, send_callback_of, sent, received,
  set_event, http_response, run, response, store,
}
use networking_programming.Http.Items.{IsItem, answering}
use networking_programming.Http.Safe.{IsValid, IsRegistered}
use networking_programming.Http.Events.{run_survives}
use networking_programming.Http.Page.{send_callback-recv_callback_page}
use networking_programming.Http.Full.{none_yet, one_more, Receives-bound}

-- Connections that have received 3 bytes.
abbrev item : ℕ → ConnItem
item fd = record {
  fd = fd;
  rbuffer = replicate buffer_len 0;
  rlen = 3;
  wbuffer = replicate buffer_len 0;
  wlen = 0;
  recv_t = some recv_cb;
  send_callback = some send_cb;
}

abbrev state : State (Unit {0})
state = record { conn_list = item; world = tt }

item-IsItem : (fd : ℕ) → IsItem (item fd)
item-IsItem fd = record { rbuffer = refl; wbuffer = refl; rlen = omega arith; wlen = omega arith }

abbrev readable : EpollEvent
readable = record { fd = 5; readable = true; writable = false }

abbrev writable : EpollEvent
writable = record { fd = 6; readable = false; writable = true }

registered : (e : EpollEvent) → e.fd < 7 → IsRegistered state e
registered e h = record { in_range = omega arith; reads = λ _. cc; writes = λ _. cc }

-- Here every `recv`, `send` and `epoll_ctl` fails.
run_survives_example :
    (t : State (Unit {0})) × (run broken (readable ∷ writable ∷ []) state ≡ ok t) × IsValid t
run_survives_example =
    run_survives broken broken-OsLaws (λ fd w. tt) (readable ∷ writable ∷ []) state item-IsItem
      (registered readable (omega arith), (registered writable (omega arith), tt))

send_callback-recv_callback_page_example :
    (ret : ℤ) × (t : State (Unit {0})) × (recv_callback working 5 state ≡ ok (ret, t))
    × ((t.conn_list 5).rlen ≡ 4)
    × ((u : Unit {0})
        → send_callback_of working 5 (record t { world = u })
          ≡ sent working 5 (pos (length response)) (record t { world = u }))
send_callback-recv_callback_page_example =
    send_callback-recv_callback_page working working-OsLaws 5 state (item-IsItem 5) 0 refl

abbrev next : State (Unit {0})
next = record { conn_list = store item 5 (answering (item 5) 3 (b'A' ∷ []) 1); world = tt }

next_runs : recv_callback working 5 state ≡ ok (pos 1, next)
unfolding recv_callback received set_event http_response patch splice overwrite response
next_runs = refl

Receives-bound_example : 3 + 1 ≤ buffer_len
Receives-bound_example =
    Receives-bound working working-OsLaws 5 (item-IsItem 5)
      (one_more state next 0 refl next_runs none_yet)
