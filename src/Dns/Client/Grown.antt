-- ===== src/Dns/Client/Grown.antt =====
-- What a query does to the heap of the client.
use networking_programming.Base.{ℕ, ◌≤◌, ◌<◌, ◌≡◌, refl, Option, none, some, arith, replicate}
use networking_programming.Memory.{Bytes, IfOk, of_option, slice}
use networking_programming.Memory.Post.{IfOk->>=}
use networking_programming.Base.Words.{htons}
use networking_programming.Dns.Request.{
  DnsQuestion, zero_question, create_header, create_question, build_request,
}
use networking_programming.Dns.Client.{message_size, Client, Udp, keep_name, query}
use networking_programming.Dns.Client.Free.{Fresh}
use networking_programming.Dns.Client.Commit.{connected, header_of}

-- What a query does to the heap: it may leave new blocks, and changes no other.
pub record Grown {W : Type 0} (s t : Client W) : Type 0 where
  pub kept : (q : ℕ) → q < s.next → t.heap q ≡ s.heap q
  pub more : s.next ≤ t.next
  pub fresh : Fresh s.next s.heap → Fresh t.next t.heap
  pub same_open : t.is_open ≡ s.is_open

module _ (os : Udp) where
  open os use {World}

  keep_name-Grown :
      (question : DnsQuestion) (found : Option Bytes) (s : Client World) (w : World)
      → question.qname ≡ found
      → Grown s (record (keep_name os question s) { world = w })
  unfolding keep_name
  keep_name-Grown question none s w e =
      rw e (record { kept = λ q below. refl; more = omega arith; fresh = λ h. h; same_open = refl })
  keep_name-Grown question (some qname) s w e = rw e (record {
    kept = λ q below. ground arith;
    more = omega arith;
    fresh = λ h q above. ground (arith, h q);
    same_open = refl;
  })

  pub query-Grown :
      (sockfd : ℕ) (domain : Bytes) (s : Client World) → IfOk (Grown s) (query os sockfd domain s)
  unfolding query create_header htons
  query-Grown sockfd domain s =
      IfOk->>= (Grown s)
        (create_question (os.malloc (connected os sockfd s.world))
          (os.strdup (connected os sockfd s.world)) (some zero_question) domain)
        _
        λ made. IfOk->>= (Grown s) (of_option made.1) _ λ question.
          IfOk->>= (Grown s)
            (build_request (header_of (os.random (connected os sockfd s.world))) question
              (replicate message_size 0))
            _
            λ built.
              IfOk->>= (Grown s) (slice built.1 0 built.0) _
                λ sent. keep_name-Grown question question.qname s _ refl
