-- ===== src/WebServer/Batch.antt =====
-- The loop over the events in WebServerDemo, and the one in reactor.c.
use networking_programming.Base.{
  ℕ, ◌≡◌, refl, sym, ap, Bool, true, false, Option, none, some, List, [], ◌∷◌, ltb, leb, ◌⊎◌, inl,
  inr, All, if◌then◌else◌,
}
use networking_programming.Base.Int.{ℤ, pos, negsuc}
use networking_programming.Memory.{Outcome, ok, ◌>>=◌, as_size}
use networking_programming.Net.{Os, mod_event, epollin, EpollEvent}
use networking_programming.Reactor
use networking_programming.Reactor.{accept_cb, recv_cb, send_cb}
use networking_programming.WebServer.{
  ConnItem, State, Kind, listens, receives, in_callback, out_callback, dispatch, handle, run,
  buffer_len, conn_len,
}
use networking_programming.Memory.Agree.{Agree, Agree->>=, Agree-eq, Agree-if}
use networking_programming.WebServer.Relation.{SameItem, SameEntry, Same}
use networking_programming.WebServer.Same.{
  SameResult, world-Same, accepted-Agree, received-Agree, set_event-Same,
}

as_size-inv : (z : ℤ) (n : ℕ) → as_size z ≡ ok n → z ≡ pos n
as_size-inv (pos m) n e = cc
as_size-inv (negsuc m) n e = cc

module _ (os : Os) (listening : ℕ → Bool) where
  open os use {World}

  accept_callback-Agree :
      (fd : ℕ) (item : ConnItem) (s : Reactor.State World) (t : State World)
      → item.fd ≡ fd
      → Same listening s t
      → Agree
          (SameResult os listening)
          (Reactor.accept_callback os fd s)
          (in_callback os listens fd item t)
  unfolding Reactor.accept_callback in_callback
  accept_callback-Agree fd item s t f same =
      rw (f, sym same.world)
        (accepted-Agree os listening (os.accept fd s.world).0 _ _
          (world-Same os listening _ _ same refl))

  recv_callback-Agree :
      (fd : ℕ) (item : ConnItem) (s : Reactor.State World) (t : State World)
      → item.kind ≡ receives
      → SameItem listening fd (s.connlist fd) receives item
      → Same listening s t
      → Agree
          (SameResult os listening)
          (Reactor.recv_callback os fd s)
          (in_callback os receives fd item t)
  unfolding Reactor.recv_callback in_callback
  recv_callback-Agree fd item s t k (rc, sc, f, rb, rl, wl, long, out) same =
      Agree-eq (SameResult os listening) _ _ _ _ (ap as_size (sym rl)) λ idx e.
        Agree-if (SameResult os listening) (leb idx buffer_len) _ _ _ _
          (simp (f, sym same.world)
            (received-Agree os listening fd idx _ _ item _ _ (world-Same os listening _ _ same refl)
              k (rc, sc, f, rb, rl, wl, long, out)))
          tt

  send_callback-Agree :
      (fd : ℕ) (item : ConnItem) (s : Reactor.State World) (t : State World)
      → SameItem listening fd (s.connlist fd) receives item
      → Same listening s t
      → Agree (SameResult os listening) (Reactor.send_callback_of os fd s) (out_callback os item t)
  unfolding Reactor.send_callback_of out_callback
  send_callback-Agree fd item s t (rc, sc, f, rb, rl, wl, long, out) same =
      Agree-eq (SameResult os listening) _ _ _ _ (ap as_size (sym wl)) λ n e.
        Agree-eq (SameResult os listening) _ _ _ _ (sym (out n (as_size-inv _ n e))) λ bytes e'.
          simp (f, sym same.world)
            (
              refl,
              world-Same os listening _ _ same
                  (set_event-Same os listening fd mod_event epollin _ _ refl),
            )

  in_callback-Agree :
      (fd : ℕ) (r : Option Reactor.Callback) (kind : Kind) (item : ConnItem)
      (s : Reactor.State World) (t : State World)
      → item.kind ≡ kind
      → (s.connlist fd).recv_t ≡ r
      → SameItem listening fd (s.connlist fd) kind item
      → Same listening s t
      → Agree (SameResult os listening) (Reactor.call os r fd s) (in_callback os kind fd item t)
  unfolding Reactor.call
  in_callback-Agree fd r listens item s t k e (a, f, l) same =
      rw (sym e, a) (accept_callback-Agree fd item s t f same)
  in_callback-Agree fd r receives item s t k e is same =
      rw (sym e, is.0) (recv_callback-Agree fd item s t k is same)

  out_callback-Agree :
      (fd : ℕ) (kind : Kind) (item : ConnItem) (s : Reactor.State World) (t : State World)
      → listening fd ≡ false
      → SameItem listening fd (s.connlist fd) kind item
      → Same listening s t
      → Agree
          (SameResult os listening)
          (Reactor.call os (s.connlist fd).send_callback fd s)
          (out_callback os item t)
  unfolding Reactor.call
  out_callback-Agree fd listens item s t u (a, f, l) same = cc
  out_callback-Agree fd receives item s t u is same =
      rw is.1 (send_callback-Agree fd item s t is same)

  -- Epoll does not say of a listening socket that it can be written to, and not read.
  abbrev pub IsUsual : EpollEvent → Type 0
  IsUsual e = (e.readable ≡ true) ⊎ (e.writable ≡ false) ⊎ (listening e.fd ≡ false)

  done-Agree :
      (m : Outcome (ℤ × Reactor.State World)) (n : Outcome (ℤ × State World))
      → Agree (SameResult os listening) m n
      → Agree (Same listening) (m >>= λ (_, s). ok s) (n >>= λ (_, t). ok t)
  done-Agree m n e = Agree->>= (Same listening) m n _ _ e λ a b same. same.1

  dispatch-Agree :
      (fd : ℕ) (readable writable : Bool) (s : Reactor.State World) (t : State World)
      (found : Option ConnItem)
      → (readable ≡ true) ⊎ (writable ≡ false) ⊎ (listening fd ≡ false)
      → Same listening s t
      → SameEntry listening fd (s.connlist fd) found
      → Agree
          (Same listening)
          (if readable
            then (Reactor.call os (s.connlist fd).recv_t fd s >>= λ (_, s'). ok s')
            else if writable
            then (Reactor.call os (s.connlist fd).send_callback fd s >>= λ (_, s'). ok s')
            else ok s)
          (dispatch os readable writable fd found t)
  unfolding Reactor.call dispatch
  dispatch-Agree fd true w s t none usual same (r, c) = rw r tt
  dispatch-Agree fd true w s t (some item) usual same is =
      done-Agree _ _ (in_callback-Agree fd _ item.kind item s t refl refl is same)
  dispatch-Agree fd false true s t none usual same (r, c) = rw c tt
  dispatch-Agree fd false true s t (some item) (inl u) same is = cc
  dispatch-Agree fd false true s t (some item) (inr (inl u)) same is = cc
  dispatch-Agree fd false true s t (some item) (inr (inr u)) same is =
      done-Agree _ _ (out_callback-Agree fd item.kind item s t u is same)
  dispatch-Agree fd false false s t found usual same is = same

  handle-Agree :
      (e : EpollEvent) (s : Reactor.State World) (t : State World)
      → IsUsual e
      → Same listening s t
      → Agree (Same listening) (Reactor.handle os e s) (handle os e t)
  unfolding Reactor.handle handle
  handle-Agree e s t usual same =
      Agree-if (Same listening) (ltb e.fd conn_len) _ _ _ _
        (dispatch-Agree e.fd e.readable e.writable s t (t.conn_list e.fd) usual same
          (same.entry e.fd))
        tt

  -- If the states of the two servers show the same, and no event says of a socket that may listen
  -- that it can be written to and not read, then both serve a batch of events alike, whatever the
  -- calls return: both come to undefined behaviour, or neither does and the states show the same
  -- again, with the same calls behind them.
  pub run-Agree :
      (es : List EpollEvent) (s : Reactor.State World) (t : State World)
      → All IsUsual es
      → Same listening s t
      → Agree (Same listening) (Reactor.run os es s) (run os es t)
  unfolding Reactor.run run
  run-Agree [] s t usual same = same
  run-Agree (e ∷ es) s t (u, usual) same =
      Agree->>= (Same listening) _ _ _ _ (handle-Agree e s t u same)
        λ s' t' same'. run-Agree es s' t' usual same'
