-- ===== src/WebServer/SameStart.antt =====
-- The set-up of WebServerDemo and that of reactor.c, and the two servers from their start.
use networking_programming.Base.{
  ℕ, zero, suc, ◌+◌, ◌%◌, ◌^◌, ◌≡◌, refl, Bool, true, Option, none, some, List, ltb, All, arith,
  length-replicate,
}
use networking_programming.Base.Int.{ℤ, pos, negsuc}
use networking_programming.Net.{Os, add, epollin, is_error, EpollEvent}
use networking_programming.Reactor
use networking_programming.Reactor.Setup
use networking_programming.Reactor.Setup.{first_port, zero_item, set_up, main}
use networking_programming.WebServer.{
  State, listens, new_item, conn_len, init_server, listening, listen_port, listen_ports, start,
  serve, run_some, port_cnt,
}
use networking_programming.Memory.Agree.{Agree, Agree->>=, Agree-if}
use networking_programming.WebServer.Relation.{Same, put-Same}
use networking_programming.WebServer.Same.{set_event-Same, world-Same}
use networking_programming.WebServer.Batch.{IsUsual, run-Agree}

module _ (os : Os) (socket : os.World → ℤ × os.World) (bind : ℤ → ℕ → os.World → ℤ × os.World)
    (listen : ℤ → os.World → os.World) (epoll_create : os.World → ℤ × os.World)
    (may_listen : ℕ → Bool) where
  open os use {World}

  listening-Agree :
      (fd : ℤ) (s : Reactor.State World) (t : State World)
      → ((n : ℕ) → fd ≡ pos n → may_listen n ≡ true)
      → Same may_listen s t
      → Agree
          (Same may_listen)
          (Setup.listening os socket bind listen epoll_create fd s)
          (listening os socket bind listen epoll_create fd t)
  unfolding Setup.listening listening
  listening-Agree (negsuc n) s t allowed same = tt
  listening-Agree (pos n) s t allowed same =
      Agree-if (Same may_listen) (ltb n conn_len) _ _ _ _
        (put-Same n (record (s.connlist n) { fd = n; recv_t = some Reactor.accept_cb })
          (some (new_item listens n)) same
          (set_event-Same os may_listen n add epollin s.world t.world same.world) (same.room n)
          (refl, refl, allowed n refl))
        tt

  init_server-init_server :
      (port : ℕ) (v w : World)
      → v ≡ w
      → Setup.init_server os socket bind listen epoll_create port v
        ≡ init_server os socket bind listen epoll_create port w
  unfolding Setup.init_server init_server
  init_server-init_server port v w e = rw e refl

  module _ (sockets : (w : World) → (fd : ℕ) → (socket w).0 ≡ pos fd → may_listen fd ≡ true) where
    init_server_allowed :
        (port : ℕ) (w : World) (n : ℕ)
        → (init_server os socket bind listen epoll_create port w).0 ≡ pos n
        → may_listen n ≡ true
    unfolding init_server
    init_server_allowed port w n e = sockets w n (ground arith)

    listen_port-Agree :
        (port : ℕ) (s : Reactor.State World) (t : State World)
        → Same may_listen s t
        → Agree
            (Same may_listen)
            (Setup.listen_port os socket bind listen epoll_create port s)
            (listen_port os socket bind listen epoll_create port t)
    unfolding Setup.listen_port listen_port
    listen_port-Agree port s t same = rw (init_server-init_server port s.world t.world same.world) (
        listening-Agree (init_server os socket bind listen epoll_create port t.world).0 _ _
          (init_server_allowed port t.world) (world-Same os may_listen _ _ same refl))

    listen_ports-Agree :
        (left i : ℕ) (s : Reactor.State World) (t : State World)
        → Same may_listen s t
        → Agree
            (Same may_listen)
            (Setup.listen_ports os socket bind listen epoll_create left i s)
            (listen_ports os socket bind listen epoll_create left first_port i t)
    unfolding Setup.listen_ports listen_ports
    listen_ports-Agree zero i s t same = same
    listen_ports-Agree (suc left) i s t same =
        Agree->>= (Same may_listen) _ _ _ _ (listen_port-Agree ((first_port + i) % 2 ^ 16) s t same)
          λ s' t' same'. listen_ports-Agree left (i + 1) s' t' same'

    -- What the set-ups hand on; `none` is a server that has ended.
    abbrev pub SameStart : Option (Reactor.State World) → Option (State World) → Type 0
    SameStart (some s) (some t) = Same may_listen s t
    SameStart none none = Unit
    SameStart _ _ = ⊥

    start-Agree :
        (w : World)
        → Agree SameStart
            (set_up os socket bind listen epoll_create w)
            (start os socket bind listen epoll_create first_port w)
    unfolding set_up start
    start-Agree w = Agree-if SameStart (is_error (epoll_create w).0) _ _ _ _ tt (
        Agree->>= {R = Same may_listen} SameStart _ _ _ _
          (listen_ports-Agree port_cnt 0
            (record { connlist = λ fd. zero_item; world = (epoll_create w).1 })
            (record { conn_list = λ fd. none; world = (epoll_create w).1 })
            (record {
              world = refl;
              room = λ fd. length-replicate {A = ℕ} Reactor.buffer_len 0;
              entry = λ fd. (refl, refl);
            }))
          λ s t same. same)

    run-Start :
        (es : List EpollEvent) (found : Option (Reactor.State World))
        (found' : Option (State World))
        → All (IsUsual os may_listen) es
        → SameStart found found'
        → Agree SameStart
            (Setup.run_some os socket bind listen epoll_create es found)
            (run_some os socket bind listen epoll_create es found')
    unfolding Setup.run_some run_some
    run-Start es none none usual same = tt
    run-Start es (some s) (some t) usual same =
        Agree->>= {R = Same may_listen} SameStart _ _ _ _
          (run-Agree os may_listen es s t usual same) λ s' t' same'. same'
    run-Start es none (some t) usual same = absurd same
    run-Start es (some s) none usual same = absurd same

    -- `Server::run(2048)` and the `main` of reactor.c behave alike from the first call to the last
    -- event, whatever the calls return, if no event says of a descriptor that `socket` returns that
    -- it can be written to and not read. Both return early, or both come to undefined behaviour, or
    -- both serve all events, with the same calls behind them and the same bytes to send on every
    -- connection.
    pub serve-Agree :
        (es : List EpollEvent) (w : World)
        → All (IsUsual os may_listen) es
        → Agree SameStart
            (main os socket bind listen epoll_create es w)
            (serve os socket bind listen epoll_create first_port es w)
    unfolding main serve
    serve-Agree es w usual =
        Agree->>= {R = SameStart} SameStart _ _ _ _ (start-Agree w)
          λ found found' same. run-Start es found found' usual same
