-- ===== src/Reactor/Items.antt =====
-- The connections of `reactor.c`: what holds of an entry of `connlist` between two callbacks, and
-- what `recv_cb` makes of it.
use networking_programming.Base.{ℕ, suc, ◌≤◌, ◌≡◌, refl, ◌∙◌, length, arith}
use networking_programming.Base.Int.{ℤ, pos, negsuc, ◌+ℤ◌}
use networking_programming.Memory.{Bytes, ok, splice}
use networking_programming.Memory.Laws.{slice-splice, patch-ok, length-splice}
use networking_programming.Net.{Os, mod_event, epollout}
use networking_programming.Reactor.{ConnItem, State, buffer_len, store, set_event, received}

-- A length that a buffer has room for.
abbrev pub Fits : ℤ → Type 0
Fits (pos n) = n ≤ buffer_len
Fits (negsuc n) = ⊥

pub record IsItem (item : ConnItem) : Type 0 where
  pub rbuffer : length item.rbuffer ≡ buffer_len
  pub wbuffer : length item.wbuffer ≡ buffer_len
  pub rlen : item.rlen ≡ pos 0
  pub wlen : Fits item.wlen

-- The entry after `recv_cb` has read `n` bytes: they stand at the beginning of both buffers.
abbrev pub echoing : ConnItem → Bytes → ℕ → ConnItem
echoing item bytes n = record item {
  rbuffer = splice item.rbuffer 0 bytes;
  rlen = pos 0;
  wbuffer = splice item.wbuffer 0 bytes;
  wlen = pos n;
}

zero-add-pos : (n : ℕ) → pos 0 +ℤ pos n ≡ pos n
unfolding ◌+ℤ◌
zero-add-pos n = ground arith

pub received_lem :
    (os : Os) (fd k : ℕ) (bytes : Bytes) (s : State os.World)
    → IsItem (s.connlist fd)
    → length bytes ≡ suc k
    → suc k ≤ buffer_len
    → received os fd 0 (pos (suc k)) bytes s
      ≡ ok (
        pos (suc k),
        record {
          connlist = store s.connlist fd (echoing (s.connlist fd) bytes (suc k));
          world = (set_event os fd mod_event epollout s.world).1;
        },
      )
unfolding received
received_lem os fd k bytes s p size room = rw (
  p.rlen,
  zero-add-pos (suc k),
  patch-ok (s.connlist fd).rbuffer 0 bytes (omega (arith, p.rbuffer)),
  slice-splice (s.connlist fd).rbuffer bytes size (omega (arith, p.rbuffer)),
  patch-ok (s.connlist fd).wbuffer 0 bytes (omega (arith, p.wbuffer)),
)

pub echoing-IsItem :
    (item : ConnItem) (bytes : Bytes) (n : ℕ)
    → n ≤ buffer_len
    → IsItem item
    → IsItem (echoing item bytes n)
echoing-IsItem item bytes n room p = record {
  rbuffer = length-splice item.rbuffer 0 bytes ∙ p.rbuffer;
  wbuffer = length-splice item.wbuffer 0 bytes ∙ p.wbuffer;
  rlen = refl;
  wlen = room;
}
