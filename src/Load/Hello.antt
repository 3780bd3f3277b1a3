-- ===== src/Load/Hello.antt =====
-- The texts that the load generator sends.
use networking_programming.Base.{
  ℕ, ◌+◌, ◌≤◌, ◌<◌, ◌≡◌, ◌≢◌, [], ◌∷◌, ◌++◌, length, arith, All, length-append,
}
use networking_programming.Base.Int.{ℤ, pos, ◌+ℤ◌}
use networking_programming.Base.Decimal.{decimal, decimal-nonzero, length-decimal}
use networking_programming.Memory.{Bytes, ok, splice}
use networking_programming.Memory.Text.{codes, print_text, print_text-ok}
use networking_programming.Load.{
  Calls, Load, nty_set_nonblock, nty_set_reuse_addr, hello_text, data_text, max_buffer,
}

abbrev IsPlain : Bytes → Type 0
IsPlain text = All (λ c. c ≢ 0) text

append-IsPlain : (xs ys : Bytes) → IsPlain xs → IsPlain ys → IsPlain (xs ++ ys)
append-IsPlain [] ys h k = k
append-IsPlain (x ∷ xs) ys (hx, h) k = (hx, append-IsPlain xs ys h k)

-- A number between two texts.
around-IsPlain : (xs : Bytes) (i : ℤ) → IsPlain xs → IsPlain (xs ++ decimal i ++ 10 ∷ [])
around-IsPlain xs i h =
    append-IsPlain (xs ++ decimal i) (10 ∷ []) (append-IsPlain xs (decimal i) h (decimal-nonzero i))
      (omega arith)

length-around : (xs : Bytes) (i : ℤ) → length (xs ++ decimal i ++ 10 ∷ []) ≤ length xs + 12
length-around xs i = omega (
  arith,
  length-append (xs ++ decimal i) (10 ∷ []),
  length-append xs (decimal i),
  length-decimal i,
)

print-around :
    (b xs : Bytes) (i : ℤ)
    → length b ≡ max_buffer
    → length xs < 100
    → IsPlain xs
    → print_text b (xs ++ decimal i ++ 10 ∷ [])
      ≡ ok (splice b 0 ((xs ++ decimal i ++ 10 ∷ []) ++ 0 ∷ []), xs ++ decimal i ++ 10 ∷ [])
print-around b xs i room short plain =
    print_text-ok b (xs ++ decimal i ++ 10 ∷ []) (omega (arith, length-around xs i))
      (around-IsPlain xs i plain)

-- Both texts fit into `buffer`, and `strlen` finds their ends.
pub print-hello_text :
    (b : Bytes) (i : ℤ)
    → length b ≡ max_buffer
    → print_text b (hello_text i) ≡ ok (splice b 0 (hello_text i ++ 0 ∷ []), hello_text i)
unfolding hello_text
print-hello_text b i room =
    print-around b (codes "Hello Server: client --> ") i room (omega arith) (omega arith)

pub print-data_text :
    (b : Bytes) (clientfd : ℕ)
    → length b ≡ max_buffer
    → print_text b (data_text clientfd)
      ≡ ok (splice b 0 (data_text clientfd ++ 0 ∷ []), data_text clientfd)
unfolding data_text
print-data_text b clientfd room =
    print-around b (codes "data from ") (pos clientfd) room (omega arith) (omega arith)

module _ (calls : Calls) where
  open calls use {World}

  -- The state behind a new connection.
  abbrev pub greeted : ℤ → ℕ → Load World → Load World
  greeted epoll_fd sockfd s = record s {
    connections = s.connections +ℤ pos 1;
    buffer = splice s.buffer 0 (hello_text s.connections ++ 0 ∷ []);
    world =
        (calls.epoll_add epoll_fd sockfd
          (calls.send sockfd (hello_text s.connections)
            (nty_set_reuse_addr calls sockfd (nty_set_nonblock calls sockfd s.world).1).1).1).1;
  }
