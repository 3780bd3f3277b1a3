-- ===== src/Http/Safe.antt =====
-- The callbacks of `http-server.c`: what each keeps of the entries.
use networking_programming.Base.{
  ℕ, zero, suc, ◌+◌, ◌-◌, ◌≤◌, ◌<◌, ◌≡◌, ◌≢◌, refl, true, Option, none, some, length, arith,
  replicate, length-replicate, length-take, drop, lt→ltb, le→leb, ◌==◌, if◌then◌else◌, Bool-cases,
  inl, inr, take,
}
use networking_programming.Base.Int.{ℤ, pos, negsuc}
use networking_programming.Memory.{Bytes, Outcome, ok}
use networking_programming.Memory.Laws.{slice-ok, patch-ok}
use networking_programming.Net.{Os, OsLaws, mod_event, epollin, add, EpollEvent}
use networking_programming.Http.Items.{IsItem, answering, answering-IsItem, received_lem}
use networking_programming.Http.{
  ConnItem, State, Callback, accept_cb, recv_cb, send_cb, conn_len, buffer_len, store, opened,
  set_event, accepted, accept_callback, received, sent, disconnect, failed, recv_callback,
  send_callback_of, call,
}

abbrev pub IsValid : {W : Type 0} → State W → Type 0
IsValid s = (fd : ℕ) → IsItem (s.conn_list fd)

-- A callback that is set stays set.
abbrev pub Keeps : {W : Type 0} → State W → State W → Type 0
Keeps s t =
    (fd : ℕ)
    → ((s.conn_list fd).recv_t ≢ none → (t.conn_list fd).recv_t ≢ none)
      × ((s.conn_list fd).send_callback ≢ none → (t.conn_list fd).send_callback ≢ none)

-- What `epoll_wait` may report: a descriptor that has been registered, for an event that has its
-- callback.
pub record IsRegistered {W : Type 0} (s : State W) (e : EpollEvent) : Type 0 where
  pub in_range : e.fd < conn_len
  pub reads : e.readable ≡ true → (s.conn_list e.fd).recv_t ≢ none
  pub writes : e.writable ≡ true → (s.conn_list e.fd).send_callback ≢ none

-- `accept` fails with -1, or returns a descriptor that `conn_list` has an entry for.
abbrev pub Accepts : ℤ → Type 0
Accepts (pos n) = n < conn_len
Accepts (negsuc n) = Unit {0}

-- What `recv` may do with the room behind `idx`.
abbrev Delivered : ℕ → ℤ → Bytes → Type 0
Delivered idx (pos n) bytes = (length bytes ≡ n) × (idx + n ≤ buffer_len)
Delivered idx (negsuc n) bytes = Unit {0}

store_all :
    (P : ConnItem → Type 0) (c : ℕ → ConnItem) (fd : ℕ) (item : ConnItem)
    → P item
    → ((j : ℕ) → P (c j))
    → (j : ℕ) → P (store c fd item j)
store_all P c fd item p h j = elim (Bool-cases (fd == j)) [
  | inl same ↦ rw same p
  | inr other ↦ rw other (h j)
]

store-Keeps :
    {W : Type 0} (s : State W) (fd : ℕ) (item : ConnItem) (w : W)
    → ((s.conn_list fd).recv_t ≢ none → item.recv_t ≢ none)
    → ((s.conn_list fd).send_callback ≢ none → item.send_callback ≢ none)
    → Keeps s (record { conn_list = store s.conn_list fd item; world = w })
store-Keeps s fd item w p q j = elim (Bool-cases (fd == j)) [
  | inl same ↦ rw same (let e : fd ≡ j = ground arith in rw (← e) (p, q))
  | inr other ↦ rw other ((λ h. h), (λ h. h))
]

module _ (os : Os) where
  open os use {World}

  -- The call returns, in a valid state that keeps the callbacks.
  pub record Safe (s : State World) (r : Outcome (ℤ × State World)) : Type 0 where
    pub ret : ℤ
    pub after : State World
    pub returns : r ≡ ok (ret, after)
    pub valid : IsValid after
    pub keeps : Keeps s after

  stored :
      (s : State World) (fd : ℕ) (item : ConnItem) (w : World) (ret : ℤ)
      → IsItem item
      → ((s.conn_list fd).recv_t ≢ none → item.recv_t ≢ none)
      → ((s.conn_list fd).send_callback ≢ none → item.send_callback ≢ none)
      → IsValid s
      → Safe s (ok (ret, record { conn_list = store s.conn_list fd item; world = w }))
  stored s fd item w ret p kr ks v = record {
    ret = ret;
    after = record { conn_list = store s.conn_list fd item; world = w };
    returns = refl;
    valid = store_all IsItem s.conn_list fd item p v;
    keeps = store-Keeps s fd item w kr ks;
  }

  unstored :
      (s : State World) (w : World) (ret : ℤ)
      → IsValid s
      → Safe s (ok (ret, record s { world = w }))
  unstored s w ret v = record {
    ret = ret;
    after = record s { world = w };
    returns = refl;
    valid = v;
    keeps = λ fd. ((λ h. h), (λ h. h));
  }

  accepted-Safe : (r : ℤ) (s : State World) → Accepts r → IsValid s → Safe s (accepted os r s)
  unfolding accepted
  accepted-Safe (negsuc n) s room v = unstored s s.world (negsuc 0) v
  accepted-Safe (pos clientfd) s room v = elim (Bool-cases (failed os ready.0)) [
    | inl bad ↦ rw bad (unstored s ready.1 (negsuc 0) v)
    | inr good ↦
        rw (good, lt→ltb clientfd conn_len room)
          (stored s clientfd (opened (s.conn_list clientfd) clientfd) ready.1 (pos clientfd)
            (record {
              rbuffer = length-replicate {A = ℕ} buffer_len 0;
              wbuffer = length-replicate {A = ℕ} buffer_len 0;
              rlen = omega arith;
              wlen = omega arith;
            })
            (λ _. cc) (λ _. cc) v)
  ]
    where
      ready : ℤ × World
      ready = set_event os clientfd add epollin s.world

  received-Safe :
      (fd idx : ℕ) (cnt : ℤ) (bytes : Bytes) (s : State World)
      → Delivered idx cnt bytes
      → IsValid s
      → Safe s (received os fd idx cnt bytes s)
  received-Safe fd idx (negsuc n) bytes s d v =
      (unfold received disconnect in unstored s _ (negsuc 0) v)
  received-Safe fd idx (pos zero) bytes s d v =
      (unfold received disconnect in unstored s _ (negsuc 0) v)
  received-Safe fd idx (pos (suc k)) bytes s (size, fits) v =
      rw (received_lem os fd idx k bytes s (v fd) size fits) (
        stored s fd (answering (s.conn_list fd) idx bytes (suc k)) _ _
          (answering-IsItem (s.conn_list fd) idx bytes (suc k) fits (v fd)) (λ h. h) (λ h. h) v)

  reworld :
      (s : State World) (w : World) (r : Outcome (ℤ × State World))
      → Safe (record s { world = w }) r
      → Safe s r
  reworld s w r p = record {
    ret = p.ret;
    after = p.after;
    returns = p.returns;
    valid = p.valid;
    keeps = p.keeps;
  }

  finish_send :
      (fd : ℕ) (cnt : ℤ) (s : State World)
      → IsValid s
      → (let (r, w) = set_event os fd mod_event epollin s.world in
          Safe s (
            if failed os r
            then ok (negsuc 0, record s { world = w })
            else ok (cnt, record s { world = w })))
  finish_send fd cnt s v = elim (Bool-cases (failed os ready.0)) [
    | inl bad ↦ rw bad (unstored s ready.1 (negsuc 0) v)
    | inr good ↦ rw good (unstored s ready.1 cnt v)
  ]
    where
      ready : ℤ × World
      ready = set_event os fd mod_event epollin s.world

  sent-Safe : (fd : ℕ) (cnt : ℤ) (s : State World) → IsValid s → Safe s (sent os fd cnt s)
  unfolding sent
  sent-Safe fd (pos n) s v = finish_send fd (pos n) s v
  sent-Safe fd (negsuc zero) s v = unstored s s.world (negsuc 0) v
  sent-Safe fd (negsuc (suc n)) s v = finish_send fd (negsuc (suc n)) s v

  send-Safe : (fd : ℕ) (s : State World) → IsValid s → Safe s (send_callback_of os fd s)
  unfolding send_callback_of
  send-Safe fd s v =
      rw
        (
          slice-ok item.wbuffer 0 item.wlen (omega (arith, p)),
          patch-ok (replicate buffer_len 0) 0 bytes room,
        )
        (reworld s (os.send fd bytes s.world).1 _ (
          sent-Safe fd (os.send fd bytes s.world).0
            (record s { world = (os.send fd bytes s.world).1 }) v))
    where
      item : ConnItem
      item = s.conn_list fd

      p : IsItem item
      p = v fd

      bytes : Bytes
      bytes = take item.wlen (drop 0 item.wbuffer)

      room : 0 + length bytes ≤ length {A = ℕ} (replicate buffer_len 0)
      room = omega (arith, p, length-take item.wlen item.wbuffer (omega (arith, p)))

  module _ (laws : OsLaws os) (room : (fd : ℕ) (w : World) → Accepts (os.accept fd w).0) where
    recv-Safe : (fd : ℕ) (s : State World) → IsValid s → Safe s (recv_callback os fd s)
    unfolding recv_callback
    recv-Safe fd s v = rw (le→leb idx buffer_len (v fd).rlen) (
        reworld s result.2 _ (
          received-Safe fd idx result.0 result.1 (record s { world = result.2 })
            (delivered result.0 refl) v))
      where
        idx : ℕ
        idx = (s.conn_list fd).rlen

        result : ℤ × Bytes × World
        result = os.recv fd (buffer_len - idx) s.world

        delivered : (cnt : ℤ) → result.0 ≡ cnt → Delivered idx cnt result.1
        delivered (pos k) e =
            let (size, fits) = laws.recv_count fd (buffer_len - idx) s.world k e in
            (size, omega (arith, fits, (v fd).rlen))
        delivered (negsuc k) e = tt

    accept-Safe : (fd : ℕ) (s : State World) → IsValid s → Safe s (accept_callback os fd s)
    unfolding accept_callback
    accept-Safe fd s v = reworld s (os.accept fd s.world).1 _ (
        accepted-Safe (os.accept fd s.world).0 (record s { world = (os.accept fd s.world).1 })
          (room fd s.world) v)

    pub call-Safe :
        (c : Option Callback) (fd : ℕ) (s : State World)
        → c ≢ none
        → IsValid s
        → Safe s (call os c fd s)
    unfolding call
    call-Safe none fd s set v = absurd (set refl)
    call-Safe (some accept_cb) fd s set v = accept-Safe fd s v
    call-Safe (some recv_cb) fd s set v = recv-Safe fd s v
    call-Safe (some send_cb) fd s set v = send-Safe fd s v
