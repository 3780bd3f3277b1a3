-- ===== src/Http/Items.antt =====
-- The connections of `http-server.c`: what holds of an entry of `conn_list` between two callbacks,
-- and what `recv_cb` makes of it.
use networking_programming.Base.{
  ℕ, suc, ◌+◌, ◌≤◌, ◌≡◌, refl, ◌∙◌, [], ◌∷◌, ◌++◌, length, arith, if◌then◌else◌,
}
use networking_programming.Base.Int.{pos, negsuc}
use networking_programming.Memory.{Bytes, ok, splice}
use networking_programming.Memory.Laws.{patch-ok, length-splice}
use networking_programming.Net.{Os, mod_event, epollout}
use networking_programming.Http.{
  ConnItem, State, buffer_len, store, set_event, failed, received, response, http_response,
}

pub record IsItem (item : ConnItem) : Type 0 where
  pub rbuffer : length item.rbuffer ≡ buffer_len
  pub wbuffer : length item.wbuffer ≡ buffer_len
  pub rlen : item.rlen ≤ buffer_len
  pub wlen : item.wlen ≤ buffer_len

-- The page with its NUL fits a buffer.
pub response_fits : length (response ++ 0 ∷ []) ≤ buffer_len
unfolding response
response_fits = omega arith

pub length-response : length response ≡ 254
unfolding response
length-response = refl

-- The entry after `recv_cb` has read `bytes` at `idx` and put the page into `wbuffer`.
abbrev pub answering : ConnItem → ℕ → Bytes → ℕ → ConnItem
answering item idx bytes n = record item {
  rbuffer = splice item.rbuffer idx bytes;
  rlen = idx + n;
  wbuffer = splice item.wbuffer 0 (response ++ 0 ∷ []);
  wlen = length response;
}

pub received_lem :
    (os : Os) (fd idx k : ℕ) (bytes : Bytes) (s : State os.World)
    → IsItem (s.conn_list fd)
    → length bytes ≡ suc k
    → idx + suc k ≤ buffer_len
    → (let (r, w) = set_event os fd mod_event epollout s.world in
        received os fd idx (pos (suc k)) bytes s
        ≡ ok (
          (if failed os r then negsuc 0 else pos (suc k)),
          record {
            conn_list = store s.conn_list fd (answering (s.conn_list fd) idx bytes (suc k));
            world = w;
          },
        ))
unfolding received http_response
received_lem os fd idx k bytes s p size room =
    rw
      (
        patch-ok (s.conn_list fd).rbuffer idx bytes (omega (arith, p.rbuffer)),
        patch-ok (s.conn_list fd).wbuffer 0 (response ++ 0 ∷ [])
            (omega (arith, p.wbuffer, response_fits)),
      )
      (ground arith)

pub answering-IsItem :
    (item : ConnItem) (idx : ℕ) (bytes : Bytes) (n : ℕ)
    → idx + n ≤ buffer_len
    → IsItem item
    → IsItem (answering item idx bytes n)
answering-IsItem item idx bytes n room p = record {
  rbuffer = length-splice item.rbuffer idx bytes ∙ p.rbuffer;
  wbuffer = length-splice item.wbuffer 0 (response ++ 0 ∷ []) ∙ p.wbuffer;
  rlen = room;
  wlen = omega (arith, length-response);
}
