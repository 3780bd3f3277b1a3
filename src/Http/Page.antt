-- ===== src/Http/Page.antt =====
-- What a client of `http-server.c` is sent.
use networking_programming.Base.{
  ℕ, suc, ◌+◌, ◌-◌, ◌≤◌, ◌≡◌, ap, ◌∙◌, [], ◌∷◌, ◌++◌, length, arith, le→leb, if◌then◌else◌,
  replicate, take, drop, append_assoc, take-length-append,
}
use networking_programming.Base.Int.{ℤ, pos, negsuc}
use networking_programming.Memory.{Bytes, ok, slice, splice}
use networking_programming.Memory.Laws.{slice-ok, patch-ok, splice-append, length-splice}
use networking_programming.Net.{Os, OsLaws, mod_event, epollout}
use networking_programming.Http.Items.{
  IsItem, answering, received_lem, response_fits, length-response,
}
use networking_programming.Http.{
  ConnItem, State, buffer_len, store, set_event, failed, recv_callback, send_callback_of, sent,
  response,
}

store_self : (c : ℕ → ConnItem) (fd : ℕ) (item : ConnItem) → store c fd item fd ≡ item
store_self c fd item = ground arith

-- The page stands before its NUL.
slice-response :
    (b : Bytes)
    → length b ≡ buffer_len
    → slice (splice b 0 (response ++ 0 ∷ [])) 0 (length response) ≡ ok response
slice-response b e =
    slice-ok whole 0 (length response)
      (omega (arith, length-splice b 0 (response ++ 0 ∷ []), length-response))
    ∙ ap ok (
        ap (take (length response)) (
          splice-append b 0 (response ++ 0 ∷ []) (omega (arith, response_fits))
          ∙ append_assoc response (0 ∷ []) rest)
        ∙ take-length-append response (0 ∷ rest))
  where
    whole : Bytes
    whole = splice b 0 (response ++ 0 ∷ [])

    rest : Bytes
    rest = drop (0 + length (response ++ 0 ∷ [])) b

module _ (os : Os) (laws : OsLaws os) (fd : ℕ) (s : State os.World)
    (p : IsItem (s.conn_list fd)) where
  open os use {World}

  -- If the entry of `fd` is valid and `recv` returns a positive count, `recv_cb` returns, `rlen`
  -- has grown by the count, and the next `send_cb` on `fd`, in whatever state of the system, hands
  -- exactly the bytes of the page to `send` and goes on with what `send` returns.
  pub send_callback-recv_callback_page :
      (k : ℕ)
      → (os.recv fd (buffer_len - (s.conn_list fd).rlen) s.world).0 ≡ pos (suc k)
      → (ret : ℤ) × (t : State World) × (recv_callback os fd s ≡ ok (ret, t))
        × ((t.conn_list fd).rlen ≡ (s.conn_list fd).rlen + suc k)
        × ((u : World)
            → send_callback_of os fd (record t { world = u })
              ≡ (let (cnt, w) = os.send fd response u in sent os fd cnt (record t { world = w })))
  unfolding recv_callback send_callback_of
  send_callback-recv_callback_page k e = (
    (if failed os ready.0 then negsuc 0 else pos (suc k)),
    record { conn_list = store s.conn_list fd after; world = ready.1 },
    rw (le→leb (s.conn_list fd).rlen buffer_len p.rlen, e)
        (received_lem os fd _ k bytes s' p size fits),
    rw (store_self s.conn_list fd after),
    λ u. rw (store_self s.conn_list fd after) (
        rw (
          slice-response (s.conn_list fd).wbuffer p.wbuffer,
          patch-ok (replicate buffer_len 0) 0 response (omega (arith, length-response)),
        )),
  )
    where
      idx : ℕ
      idx = (s.conn_list fd).rlen

      bytes : Bytes
      bytes = (os.recv fd (buffer_len - idx) s.world).1

      counted : (length bytes ≡ suc k) × (suc k ≤ buffer_len - idx)
      counted = laws.recv_count fd (buffer_len - idx) s.world (suc k) e

      size : length bytes ≡ suc k
      size = counted.0

      fits : idx + suc k ≤ buffer_len
      fits = omega (arith, counted)

      after : ConnItem
      after = answering (s.conn_list fd) idx bytes (suc k)

      s' : State World
      s' = record s { world = (os.recv fd (buffer_len - idx) s.world).2 }

      ready : ℤ × World
      ready = set_event os fd mod_event epollout s'.world
