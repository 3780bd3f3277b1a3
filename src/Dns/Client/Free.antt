-- ===== src/Dns/Client/Free.antt =====
-- What `dns_async_client_free_domains` does to the heap.
use networking_programming.Base.{
  ℕ, zero, suc, ◌+◌, ◌*◌, ◌≤◌, ◌<◌, ◌≡◌, refl, ◌∙◌, Bool, true, false, Option, none, some, List, [],
  length, leb, ltb, ◌&&◌, ◌⊎◌, inl, inr, ◌==◌, Bool-cases, if◌then◌else◌, arith,
}
use networking_programming.Base.Int.{ℤ, pos, negsuc}
use networking_programming.Base.Counting.{put}
use networking_programming.Memory.{Bytes, Outcome, ok, ◌>>=◌, IfOk}
use networking_programming.Memory.Post.{IfOk->>=}
use networking_programming.Dns.Response.{
  DnsItem, parse_response, parse_answers, net_short, skip_queries,
}
use networking_programming.Dns.Client.{
  Block, plain, Heap, free, domain_of, free_items, free_domains, allocate, address, block_count,
}

-- No block has a number from `p` on.
abbrev pub Fresh : ℕ → Heap → Type 0
Fresh p heap = (q : ℕ) → p ≤ q → heap q ≡ none

-- The heap without the blocks from `a` up to `b`.
abbrev pub cleared : ℕ → ℕ → Heap → Heap
cleared a b heap q = if leb a q && ltb q b then none else heap q

-- There is a block at every number from `a` up to `b`.
abbrev pub Live : ℕ → ℕ → Heap → Type 0
Live a b heap = (q : ℕ) → a ≤ q → q < b → (b : Block) × (heap q ≡ some b)

pub allocate_out :
    (n p : ℕ) (heap : Heap) (q : ℕ) → (q < p) ⊎ (p + n ≤ q) → allocate n p heap q ≡ heap q
unfolding allocate
allocate_out zero p heap q away = refl
allocate_out (suc n) p heap q away =
    ground (arith, allocate_out n (p + 1) (put heap p (some plain)) q)

pub allocate_in :
    (n p : ℕ) (heap : Heap) (q : ℕ) → p ≤ q → q < p + n → allocate n p heap q ≡ some plain
unfolding allocate
allocate_in zero p heap q low high = absurd (omega arith)
allocate_in (suc n) p heap q low high = elim (Bool-cases (p == q)) [
  | inl here ↦
      allocate_out n (p + 1) (put heap p (some plain)) q (inl (ground arith)) ∙ (rw here refl)
  | inr other ↦ allocate_in n (p + 1) (put heap p (some plain)) q (ground arith) (omega arith)
]

pub free_live :
    (p : ℕ) (heap : Heap) (b : Block) → heap p ≡ some b → free (some p) heap ≡ ok (put heap p none)
unfolding free
free_live p heap b live = rw live refl

domain_live :
    (list i : ℕ) (heap : Heap) (b : Block)
    → heap list ≡ some b
    → domain_of (some list) i heap ≡ ok (list + 2 * i + 1)
unfolding domain_of
domain_live list i heap b live = rw live refl

-- The loop frees two blocks in a round, if they are there and the list is, and no others.
free_items-cleared :
    (left i list : ℕ) (heap : Heap) (b : Block)
    → heap list ≡ some b
    → Live (list + 2 * i + 1) (list + 2 * (i + left) + 1) heap
    → (t : Heap) × (free_items left i (some list) heap ≡ ok t)
      × ((q : ℕ) → t q ≡ cleared (list + 2 * i + 1) (list + 2 * (i + left) + 1) heap q)
unfolding free_items
free_items-cleared zero i list heap b there live = (heap, refl, λ q. ground arith)
free_items-cleared (suc left) i list heap b there live =
    let (b1, e1) = live (list + 2 * i + 1) (omega arith) (omega arith) in
    let (b2, e2) = live (list + 2 * i + 1 + 1) (omega arith) (omega arith) in
    let heap1 : Heap = put heap (list + 2 * i + 1) none in
    let heap2 : Heap = put heap1 (list + 2 * i + 1 + 1) none in
    let (t, e, same) =
      free_items-cleared left (i + 1) list heap2 b (ground arith)
        (λ q low high. let (c, f) = live q (omega arith) (omega arith) in (c, (ground arith))) in
    (
      t,
      rw
          (
            domain_live list i heap b there,
            free_live (list + 2 * i + 1) heap b1 e1,
            domain_live list i heap1 b (ground arith),
            free_live (list + 2 * i + 1 + 1) heap1 b2 (ground arith),
          )
          e,
      λ q. ground (arith, same q),
    )

-- The number and the list belong together.
abbrev pub Consistent : Option (List DnsItem) → ℤ → Type 0
Consistent (some list) count = count ≡ pos (length list)
Consistent none count = count ≡ negsuc 0

abbrev IsResult : ℤ × Option (List DnsItem) → Type 0
IsResult r = Consistent r.1 r.0

IfOk-Consistent :
    (r : Outcome (ℤ × Option (List DnsItem))) (count : ℤ) (list : Option (List DnsItem))
    → IfOk IsResult r
    → r ≡ ok (count, list)
    → Consistent list count
IfOk-Consistent r count list h e = (rw e at h)

pub parse_response-Consistent :
    (inet_ntop : Bytes → Bytes) (calloc : ℕ → Bool) (fuel : ℕ) (buffer : Bytes) (count : ℤ)
    (list : Option (List DnsItem))
    → parse_response inet_ntop calloc fuel buffer ≡ ok (count, list)
    → Consistent list count
unfolding parse_response
parse_response-Consistent inet_ntop calloc fuel buffer count list e =
    IfOk-Consistent _ count list
      (IfOk->>= IsResult (net_short buffer 4) _ λ querys.
        IfOk->>= IsResult (net_short buffer 6) _ λ answers.
          IfOk->>= IsResult (skip_queries fuel querys buffer 12) _ λ ptr.
            result-IsResult (calloc 0) (parse_answers inet_ntop calloc fuel buffer answers ptr []))
      e
  where
    result-IsResult :
        (b : Bool) (m : Outcome (List DnsItem))
        → IfOk IsResult
            (if b then (m >>= λ list. ok (pos (length list), some list)) else ok (negsuc 0, none))
    result-IsResult true m = IfOk->>= IsResult m _ λ list. refl
    result-IsResult false m = refl

-- After the blocks of a list have been allocated, in the order of dns_parse_response, to free the
-- list gives the heap that was before: every block is freed once, and no other.
pub free_domains-allocate :
    (list : Option (List DnsItem)) (count : ℤ) (p : ℕ) (heap : Heap)
    → Fresh p heap
    → Consistent list count
    → (t : Heap) × (free_domains (address list p) count (allocate (block_count list) p heap) ≡ ok t)
      × ((q : ℕ) → t q ≡ heap q)
unfolding free_domains
free_domains-allocate none count p heap fresh same =
    (heap, rw same (unfold free_items free allocate in refl), λ q. refl)
free_domains-allocate (some list) count p heap fresh same =
    let (t, e, is) =
      free_items-cleared (length list) 0 p (allocate (2 * length list + 1) p heap) plain
        (allocate_in (2 * length list + 1) p heap p (omega arith) (omega arith))
        (λ q low high.
          (plain, allocate_in (2 * length list + 1) p heap q (omega arith) (omega arith))) in
    (
      put t p none,
      rw (same, e)
          (free_live p t plain
            (is p ∙ (ground (arith, allocate_in (2 * length list + 1) p heap p)))),
      λ q. as_before (length list) p heap t fresh is q,
    )
  where
    as_before :
        (n p : ℕ) (heap t : Heap)
        → Fresh p heap
        → ((q : ℕ)
            → t q ≡ cleared (p + 2 * 0 + 1) (p + 2 * (0 + n) + 1) (allocate (2 * n + 1) p heap) q)
        → (q : ℕ) → put t p none q ≡ heap q
    as_before n p heap t fresh is q =
        ground (arith, is q, fresh q, allocate_out (2 * n + 1) p heap q)
