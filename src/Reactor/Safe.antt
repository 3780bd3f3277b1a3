-- ===== src/Reactor/Safe.antt =====
-- The callbacks of `reactor.c`: what each keeps of the entries.
use networking_programming.Base.{
  ℕ, zero, suc, ◌≤◌, ◌<◌, ◌≡◌, ◌≢◌, refl, true, Option, none, some, length, arith, length-replicate,
  lt→ltb, ◌==◌, Bool-cases, inl, inr,
}
use networking_programming.Base.Int.{ℤ, pos, negsuc}
use networking_programming.Memory.{Bytes, Outcome, ok}
use networking_programming.Memory.Laws.{slice-ok}
use networking_programming.Net.{Os, OsLaws, EpollEvent}
use networking_programming.Reactor.Items.{Fits, IsItem, echoing, echoing-IsItem, received_lem}
use networking_programming.Reactor.{
  ConnItem, State, Callback, accept_cb, recv_cb, send_cb, conn_len, buffer_len, store, opened,
  accepted, accept_callback, received, recv_callback, send_callback_of, call,
}

abbrev pub IsValid : {W : Type 0} → State W → Type 0
IsValid s = (fd : ℕ) → IsItem (s.connlist fd)

-- A callback that is set stays set.
abbrev pub Keeps : {W : Type 0} → State W → State W → Type 0
Keeps s t =
    (fd : ℕ)
    → ((s.connlist fd).recv_t ≢ none → (t.connlist fd).recv_t ≢ none)
      × ((s.connlist fd).send_callback ≢ none → (t.connlist fd).send_callback ≢ none)

-- What `epoll_wait` may report: a descriptor that has been registered, for an event that has its
-- callback.
pub record IsRegistered {W : Type 0} (s : State W) (e : EpollEvent) : Type 0 where
  pub in_range : e.fd < conn_len
  pub reads : e.readable ≡ true → (s.connlist e.fd).recv_t ≢ none
  pub writes : e.writable ≡ true → (s.connlist e.fd).send_callback ≢ none

-- `accept` fails with -1, or returns a descriptor that `connlist` has an entry for.
abbrev pub Accepts : ℤ → Type 0
Accepts (pos n) = n < conn_len
Accepts (negsuc n) = n ≡ 0

store_all :
    (P : ConnItem → Type 0) (c : ℕ → ConnItem) (fd : ℕ) (item : ConnItem)
    → P item
    → ((j : ℕ) → P (c j))
    → (j : ℕ) → P (store c fd item j)
store_all P c fd item p h j = elim (Bool-cases (fd == j)) [
  | inl same ↦ rw same p
  | inr other ↦ rw other (h j)
]

store-Keeps :
    {W : Type 0} (s : State W) (fd : ℕ) (item : ConnItem) (w : W)
    → ((s.connlist fd).recv_t ≢ none → item.recv_t ≢ none)
    → ((s.connlist fd).send_callback ≢ none → item.send_callback ≢ none)
    → Keeps s (record { connlist = store s.connlist fd item; world = w })
store-Keeps s fd item w p q j = elim (Bool-cases (fd == j)) [
  | inl same ↦ rw same (let e : fd ≡ j = ground arith in rw (← e) (p, q))
  | inr other ↦ rw other ((λ h. h), (λ h. h))
]

module _ (os : Os) where
  open os use {World}

  -- The call returns, in a valid state that keeps the callbacks.
  pub record Safe (s : State World) (r : Outcome (ℤ × State World)) : Type 0 where
    pub ret : ℤ
    pub after : State World
    pub returns : r ≡ ok (ret, after)
    pub valid : IsValid after
    pub keeps : Keeps s after

  stored :
      (s : State World) (fd : ℕ) (item : ConnItem) (w : World) (ret : ℤ)
      → IsItem item
      → ((s.connlist fd).recv_t ≢ none → item.recv_t ≢ none)
      → ((s.connlist fd).send_callback ≢ none → item.send_callback ≢ none)
      → IsValid s
      → Safe s (ok (ret, record { connlist = store s.connlist fd item; world = w }))
  stored s fd item w ret p kr ks v = record {
    ret = ret;
    after = record { connlist = store s.connlist fd item; world = w };
    returns = refl;
    valid = store_all IsItem s.connlist fd item p v;
    keeps = store-Keeps s fd item w kr ks;
  }

  unstored :
      (s : State World) (w : World) (ret : ℤ)
      → IsValid s
      → Safe s (ok (ret, record s { world = w }))
  unstored s w ret v = record {
    ret = ret;
    after = record s { world = w };
    returns = refl;
    valid = v;
    keeps = λ fd. ((λ h. h), (λ h. h));
  }

  accepted-Safe : (r : ℤ) (s : State World) → Accepts r → IsValid s → Safe s (accepted os r s)
  unfolding accepted
  accepted-Safe (pos clientfd) s room v = rw (lt→ltb clientfd conn_len room) (
      stored s clientfd item _ (pos clientfd)
        (record {
          rbuffer = length-replicate {A = ℕ} buffer_len 0;
          wbuffer = (v clientfd).wbuffer;
          rlen = refl;
          wlen = omega arith;
        })
        (λ _. cc) (λ _. cc) v)
    where
      item : ConnItem
      item = opened (s.connlist clientfd) clientfd
  accepted-Safe (negsuc zero) s room v = unstored s s.world (negsuc 0) v
  accepted-Safe (negsuc (suc n)) s room v = absurd (omega arith)

  received-Safe :
      (fd k : ℕ) (bytes : Bytes) (s : State World)
      → length bytes ≡ k
      → k ≤ buffer_len
      → IsValid s
      → Safe s (received os fd 0 (pos k) bytes s)
  unfolding received
  received-Safe fd zero bytes s size room v = unstored s _ (negsuc 0) v
  received-Safe fd (suc k) bytes s size room v =
      rw (received_lem os fd k bytes s (v fd) size room) (
        stored s fd (echoing (s.connlist fd) bytes (suc k)) _ (pos (suc k))
          (echoing-IsItem (s.connlist fd) bytes (suc k) room (v fd)) (λ h. h) (λ h. h) v)

  reworld :
      (s : State World) (w : World) (r : Outcome (ℤ × State World))
      → Safe (record s { world = w }) r
      → Safe s r
  reworld s w r p = record {
    ret = p.ret;
    after = p.after;
    returns = p.returns;
    valid = p.valid;
    keeps = p.keeps;
  }

  send-Safe : (fd : ℕ) (s : State World) → IsValid s → Safe s (send_callback_of os fd s)
  unfolding send_callback_of
  send-Safe fd s v = by_length (s.connlist fd).wlen refl (v fd).wlen
    where
      by_length : (n : ℤ) → (s.connlist fd).wlen ≡ n → Fits n → Safe s (send_callback_of os fd s)
      by_length (pos n) e fits =
          rw (e, slice-ok (s.connlist fd).wbuffer 0 n (omega (arith, (v fd).wbuffer)))
            (unstored s _ _ v)
      by_length (negsuc n) e fits = absurd fits

  module _ (laws : OsLaws os)
      (alive : (fd n : ℕ) (w : World) (k : ℕ) → (os.recv fd n w).0 ≢ negsuc k)
      (room : (fd : ℕ) (w : World) → Accepts (os.accept fd w).0) where
    recv-Safe : (fd : ℕ) (s : State World) → IsValid s → Safe s (recv_callback os fd s)
    unfolding recv_callback
    recv-Safe fd s v = rw (v fd).rlen (
        reworld s (os.recv fd buffer_len s.world).2 _
          (by_count (os.recv fd buffer_len s.world).0 refl))
      where
        bytes : Bytes
        bytes = (os.recv fd buffer_len s.world).1

        s' : State World
        s' = record s { world = (os.recv fd buffer_len s.world).2 }

        by_count :
            (cnt : ℤ)
            → (os.recv fd buffer_len s.world).0 ≡ cnt
            → Safe s' (received os fd 0 cnt bytes s')
        by_count (pos k) e =
            let (size, fits) = laws.recv_count fd buffer_len s.world k e in
            received-Safe fd k bytes s' size fits v
        by_count (negsuc k) e = absurd (alive fd buffer_len s.world k e)

    accept-Safe : (fd : ℕ) (s : State World) → IsValid s → Safe s (accept_callback os fd s)
    unfolding accept_callback
    accept-Safe fd s v = reworld s (os.accept fd s.world).1 _ (
        accepted-Safe (os.accept fd s.world).0 (record s { world = (os.accept fd s.world).1 })
          (room fd s.world) v)

    pub call-Safe :
        (c : Option Callback) (fd : ℕ) (s : State World)
        → c ≢ none
        → IsValid s
        → Safe s (call os c fd s)
    unfolding call
    call-Safe none fd s set v = absurd (set refl)
    call-Safe (some accept_cb) fd s set v = accept-Safe fd s v
    call-Safe (some recv_cb) fd s set v = recv-Safe fd s v
    call-Safe (some send_cb) fd s set v = send-Safe fd s v
