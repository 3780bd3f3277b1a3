-- ===== src/Http/Full.antt =====
-- How long a connection of `http-server.c` can last.
use networking_programming.Base.{
  ℕ, zero, suc, ◌+◌, ◌-◌, ◌≤◌, ◌≡◌, refl, ap, sym, ◌∙◌, length, arith, le→leb,
}
use networking_programming.Base.Int.{ℤ, pos, negsuc}
use networking_programming.Memory.{Bytes, Outcome, ok}
use networking_programming.Net.{Os, OsLaws, mod_event, epollout}
use networking_programming.Http.Items.{IsItem, answering, answering-IsItem, received_lem}
use networking_programming.Http.{
  ConnItem, State, buffer_len, store, set_event, recv_callback, received, disconnect,
}

store_self : (c : ℕ → ConnItem) (fd : ℕ) (item : ConnItem) → store c fd item fd ≡ item
store_self c fd item = ground arith

module _ (os : Os) (laws : OsLaws os) (fd : ℕ) where
  open os use {World}

  -- `n` calls of `recv_cb` on one connection, each of which received something. What happens between
  -- them leaves the connection's entry alone, as `send_cb` and other connections' callbacks do.
  pub data Receives : ConnItem → ℕ → Type 0 where
    none_yet : {item : ConnItem} → Receives item 0
    one_more :
        {item : ConnItem} {n : ℕ} (s t : State World) (k : ℕ)
        → s.conn_list fd ≡ item
        → recv_callback os fd s ≡ ok (pos (suc k), t)
        → Receives (t.conn_list fd) n
        → Receives item (suc n)

  -- What a successful `recv_cb` makes of the entry.
  record Grew (s t : State World) : Type 0 where
    grown : (s.conn_list fd).rlen + 1 ≤ (t.conn_list fd).rlen
    still : IsItem (t.conn_list fd)

  closed : (s t : State World) (k : ℕ) → disconnect os fd s ≡ ok (pos k, t) → ⊥
  unfolding disconnect
  closed s t k h = cc

  second :
      {a b : ℤ} {u t : State World}
      → ◌≡◌ {A = Outcome (ℤ × State World)} (ok (a, u)) (ok (b, t))
      → t ≡ u
  second h = cc

  received_grows :
      (idx : ℕ) (cnt : ℤ) (bytes : Bytes) (s t : State World) (k : ℕ)
      → idx ≡ (s.conn_list fd).rlen
      → IsItem (s.conn_list fd)
      → ((j : ℕ) → cnt ≡ pos j → (length bytes ≡ j) × (idx + j ≤ buffer_len))
      → received os fd idx cnt bytes s ≡ ok (pos (suc k), t)
      → Grew s t
  received_grows idx (negsuc n) bytes s t k at p counted h =
      absurd (closed s t (suc k) (unfold received in h))
  received_grows idx (pos zero) bytes s t k at p counted h =
      absurd (closed s t (suc k) (unfold received in h))
  received_grows idx (pos (suc j)) bytes s t k at p counted h = rw same (record {
    grown = rw (store_self s.conn_list fd after) (omega (arith, at));
    still =
        rw (store_self s.conn_list fd after)
          (answering-IsItem (s.conn_list fd) idx bytes (suc j) (counted (suc j) refl).1 p);
  })
    where
      after : ConnItem
      after = answering (s.conn_list fd) idx bytes (suc j)

      w : World
      w = (set_event os fd mod_event epollout s.world).1

      same : t ≡ record { conn_list = store s.conn_list fd after; world = w }
      same = second (
          sym (received_lem os fd idx j bytes s p (counted (suc j) refl).0 (counted (suc j) refl).1)
          ∙ h)

  recv_grows :
      (s t : State World) (k : ℕ)
      → IsItem (s.conn_list fd)
      → recv_callback os fd s ≡ ok (pos (suc k), t)
      → Grew s t
  unfolding recv_callback
  recv_grows s t k p h =
      let g =
        received_grows idx result.0 result.1 (record s { world = result.2 }) t k refl p counted
          (rw (le→leb idx buffer_len p.rlen) at h) in
      record { grown = g.grown; still = g.still }
    where
      idx : ℕ
      idx = (s.conn_list fd).rlen

      result : ℤ × Bytes × World
      result = os.recv fd (buffer_len - idx) s.world

      counted : (j : ℕ) → result.0 ≡ pos j → (length result.1 ≡ j) × (idx + j ≤ buffer_len)
      counted j e =
          let (size, fits) = laws.recv_count fd (buffer_len - idx) s.world j e in
          (size, omega (arith, fits, p.rlen))

  -- `n` calls of `recv_cb` on one connection that each receive something need `rlen + n` to be
  -- at most BUFFER_LEN at the start: `rlen` is never taken back, so no connection lives longer.
  pub Receives-bound :
      {item : ConnItem} {n : ℕ} → IsItem item → Receives item n → item.rlen + n ≤ buffer_len
  Receives-bound p none_yet = omega (arith, p.rlen)
  Receives-bound {item} p (one_more {n = n} s t k e h more) =
      let q : IsItem (s.conn_list fd) = rw e p in
      let g = recv_grows s t k q h in
      let rest = Receives-bound g.still more in
      let same : (s.conn_list fd).rlen ≡ item.rlen = ap (λ (i : ConnItem). i.rlen) e in
      omega (arith, rest, g.grown, same)
