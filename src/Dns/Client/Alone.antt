-- ===== src/Dns/Client/Alone.antt =====
-- The loop of `dns_client_commit`, which asks for one domain and waits for the reply itself.
use networking_programming.Base.{
  ℕ, zero, suc, ◌+◌, ◌≤◌, ◌≡◌, refl, true, false, Option, List, arith, ◌∙◌,
}
use networking_programming.Base.Int.{ℤ}
use networking_programming.Memory.{ok}
use networking_programming.Dns.Response.{DnsItem}
use networking_programming.Dns.Client.{
  Client, Udp, allocate, block_count, reply, await_reply, is_silent,
}

module _ (os : Udp) where
  open os use {World}

  -- The state of the system behind that many calls of `recvfrom`.
  abbrev pub after : ℕ → ℕ → World → World
  after zero sockfd w = w
  after (suc n) sockfd w = after n sockfd (os.recvfrom sockfd w).2

  -- None of that many calls gives a byte.
  abbrev pub AllSilent : ℕ → ℕ → World → Type 0
  AllSilent zero sockfd w = Unit
  AllSilent (suc n) sockfd w =
      (is_silent (os.recvfrom sockfd w).0 ≡ true) × AllSilent n sockfd (os.recvfrom sockfd w).2

  await_silent :
      (fuel left sockfd : ℕ) (s : Client World)
      → is_silent (os.recvfrom sockfd s.world).0 ≡ true
      → await_reply os fuel (suc left) sockfd s
        ≡ await_reply os fuel left sockfd (record s { world = (os.recvfrom sockfd s.world).2 })
  unfolding await_reply
  await_silent fuel left sockfd s silent = rw silent refl

  -- If `recvfrom` gives no byte `n` times and then some, and what it gives is read without
  -- undefined behaviour, the loop ends after `n + 1` rounds. The list of items stays on the heap,
  -- with its names and addresses.
  pub await_reply-after :
      (fuel left n sockfd : ℕ) (s : Client World) (count : ℤ) (list : Option (List DnsItem))
      → n + 1 ≤ left
      → AllSilent n sockfd s.world
      → is_silent (os.recvfrom sockfd (after n sockfd s.world)).0 ≡ false
      → reply os fuel sockfd (after n sockfd s.world) ≡ ok (count, list)
      → await_reply os fuel left sockfd s
        ≡ ok (record s {
          heap = allocate (block_count list) s.next s.heap;
          next = s.next + block_count list;
          world = after (suc n) sockfd s.world;
        })
  await_reply-after fuel zero n sockfd s count list room silent some_byte read =
      absurd (omega arith)
  await_reply-after fuel (suc left) zero sockfd s count list room silent some_byte read =
      unfold await_reply in rw (some_byte, read) refl
  await_reply-after fuel (suc left) (suc n) sockfd s count list room (now, later) some_byte read =
      await_silent fuel left sockfd s now
      ∙ await_reply-after fuel left n sockfd (record s { world = (os.recvfrom sockfd s.world).2 })
          count list (omega arith) later some_byte read
