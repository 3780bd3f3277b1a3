-- ===== src/Reactor/Tests.antt =====
-- The echo server on two concrete systems.
use networking_programming.Base.{ℕ, ◌<◌, ◌≡◌, refl, true, false, some, [], ◌∷◌, arith, replicate}
use networking_programming.Base.Int.{pos}
use networking_programming.Memory.{ok}
use networking_programming.Net.{EpollEvent, epollin, mod_event}
use networking_programming.Net.Systems.{working, working-OsLaws, working_alive}
use networking_programming.Reactor.{
  ConnItem, State, recv_cb, send_cb, buffer_len, recv_callback, send_callback_of, run, set_event,
}
use networking_programming.Reactor.Items.{IsItem}
use networking_programming.Reactor.Safe.{IsValid, IsRegistered}
use networking_programming.Reactor.Events.{run_safe}
use networking_programming.Reactor.Echo.{send_callback-recv_callback}

-- Descriptor 3 listens, every other one is a connection.
abbrev item : ℕ → ConnItem
item fd = record {
  fd = fd;
  rbuffer = replicate buffer_len 0;
  rlen = pos 0;
  wbuffer = replicate buffer_len 0;
  wlen = pos 0;
  recv_t = some recv_cb;
  send_callback = some send_cb;
}

abbrev state : State (Unit {0})
state = record { connlist = item; world = tt }

item-IsItem : (fd : ℕ) → IsItem (item fd)
item-IsItem fd = record { rbuffer = refl; wbuffer = refl; rlen = refl; wlen = omega arith }

abbrev readable : EpollEvent
readable = record { fd = 5; readable = true; writable = false }

abbrev writable : EpollEvent
writable = record { fd = 6; readable = false; writable = true }

registered : (e : EpollEvent) → e.fd < 7 → IsRegistered state e
registered e h = record { in_range = omega arith; reads = λ _. cc; writes = λ _. cc }

run_safe_example :
    (t : State (Unit {0})) × (run working (readable ∷ writable ∷ []) state ≡ ok t) × IsValid t
run_safe_example =
    run_safe working working-OsLaws working_alive (λ fd w. omega arith) (readable ∷ writable ∷ [])
      state item-IsItem (registered readable (omega arith), (registered writable (omega arith), tt))

send_callback-recv_callback_example :
    (t : State (Unit {0})) × (recv_callback working 5 state ≡ ok (pos 1, t))
    × ((u : Unit {0})
        → send_callback_of working 5 (record t { world = u })
          ≡ ok (pos 1, record t { world = (set_event working 5 mod_event epollin u).1 }))
send_callback-recv_callback_example =
    send_callback-recv_callback working 5 state (item-IsItem 5) working-OsLaws 0 refl
