-- ===== src/Dns/Response/Reply.antt =====
-- `dns_parse_response` on a reply as servers send it: one question, and host records whose names
-- are pointers to the question.
use networking_programming.Base.{
  ℕ, ◌+◌, ◌*◌, ◌/◌, ◌%◌, ◌^◌, ◌≤◌, ◌<◌, ◌≡◌, ◌≢◌, refl, sym, ap, ◌∙◌, Bool, true, some, List, [],
  ◌∷◌, ◌++◌, length, arith, All, append-nil, append_assoc, length-append, drop, replicate, map,
  length-map,
}
use networking_programming.Base.Int.{pos}
use networking_programming.Memory.{Bytes, ok, splice}
use networking_programming.Memory.Window.{read-window, drop-window, slice-window, window-le}
use networking_programming.Dns.Request.Tokens.{encode, join}
use networking_programming.Dns.Name.{parse_name, is_pointer}
use networking_programming.Dns.Name.Spells.{Spells, jump, rounds}
use networking_programming.Dns.Name.Complete.{parse_name_complete}
use networking_programming.Dns.Name.Encoded.{IsShort, spells-encode, rounds-spells-encode}
use networking_programming.Dns.Response.{
  DnsItem, net_short, skip_name, skip_queries, name_size, store_host, answer_data, parse_answer,
  parse_answers, parse_response,
}
use networking_programming.Dns.Response.Skip.{net_short-window, skip_name-encode, cstr-splice}

-- A host record of a reply: four bytes of time to live and four of address.
pub record HostRecord : Type 0 where
  pub t3 : ℕ
  pub t2 : ℕ
  pub t1 : ℕ
  pub t0 : ℕ
  pub address : Bytes

abbrev pub IsHost : HostRecord → Type 0
IsHost r = (r.t3 < 256) × (r.t2 < 256) × (length r.address ≡ 4)

-- A pointer to byte 12, type 1, class 1, the time to live, and the address behind its length.
unfoldable pub record_head : HostRecord → Bytes
record_head r = 0xC0 ∷ 12 ∷ 0 ∷ 1 ∷ 0 ∷ 1 ∷ r.t3 ∷ r.t2 ∷ r.t1 ∷ r.t0 ∷ 0 ∷ 4 ∷ []

unfoldable pub records_bytes : List HostRecord → Bytes
unfolding record_head
records_bytes [] = []
records_bytes (r ∷ rs) = record_head r ++ (r.address ++ records_bytes rs)

-- A reply to the query for `ls` with the answers `rs`: identifier and flags, the counts, the
-- question, and whatever stands behind the answers.
unfoldable pub reply_bytes : ℕ → ℕ → ℕ → ℕ → List Bytes → List HostRecord → Bytes → Bytes
reply_bytes i0 i1 f0 f1 ls rs rest =
    i0
    ∷ i1
    ∷ f0
    ∷ f1
    ∷ 0
    ∷ 1
    ∷ length rs / 256
    ∷ length rs % 256
    ∷ 0
    ∷ 0
    ∷ 0
    ∷ 0
    ∷ (encode ls ++ 0 ∷ 0 ∷ 1 ∷ 0 ∷ 1 ∷ (records_bytes rs ++ rest))

-- What is stored for a host record, and the part of its time to live that is printed.
abbrev pub found : (Bytes → Bytes) → Bytes → HostRecord → DnsItem
found inet_ntop name r = record { domain = name; ip = inet_ntop r.address; ttl = r.t3 * 256 + r.t2 }

module _ (inet_ntop : Bytes → Bytes) (calloc : ℕ → Bool) (fuel : ℕ) (buffer : Bytes) (l : Bytes)
    (ls : List Bytes) (tail : Bytes) (short : All IsShort (l ∷ ls))
    (question : drop 12 buffer ≡ encode (l ∷ ls) ++ 0 ∷ tail) (few : length ls + 3 ≤ fuel)
    (fits : length (join (l ∷ ls)) < name_size) (plain : All (λ c. c ≢ 0) (join (l ∷ ls)))
    (memory : (k : ℕ) → calloc k ≡ true) where
  name_at :
      (p : ℕ) {rest : Bytes}
      → drop p buffer ≡ 0xC0 ∷ 12 ∷ rest
      → parse_name fuel buffer p (replicate name_size 0) 0
        ≡ ok (splice (replicate name_size 0) 0 (join (l ∷ ls)), length (join (l ∷ ls)))
  name_at p {rest} h =
      parse_name_complete buffer pointed fuel (replicate name_size 0) 0 enough (omega arith)
      ∙ ap (λ n. ok (splice (replicate name_size 0) 0 (join (l ∷ ls)), n)) (omega arith)
    where
      direct : Spells buffer 12 (join (l ∷ ls))
      direct = spells-encode buffer l ls 12 tail short question

      pointed : Spells buffer p (join (l ∷ ls))
      pointed =
          jump (read-window buffer p h) (omega arith) (unfold is_pointer in refl)
            (read-window buffer (p + 1) (drop-window buffer p (0xC0 ∷ []) (12 ∷ rest) h)) direct

      enough : rounds pointed ≤ fuel
      enough =
          (unfold rounds in omega (arith, rounds-spells-encode buffer l ls 12 tail short question))

  store_at :
      (p cnt ttl : ℕ) (address rest : Bytes)
      → length address ≡ 4
      → p ≤ length buffer
      → drop p buffer ≡ address ++ rest
      → store_host inet_ntop calloc fuel buffer p
          (splice (replicate name_size 0) 0 (join (l ∷ ls)))
          ttl
          cnt
        ≡ ok (record { domain = join (l ∷ ls); ip = inet_ntop address; ttl = ttl })
  unfolding store_host
  store_at p cnt ttl address rest four le h = rw (
    ← four,
    slice-window buffer p address rest le h,
    cstr-splice (join (l ∷ ls)) fits plain,
    memory (2 * cnt + 1),
    memory (2 * cnt + 2),
  )

  answer_at :
      (p cnt : ℕ) (r : HostRecord) (rest : Bytes)
      → IsHost r
      → p ≤ length buffer
      → drop p buffer ≡ record_head r ++ (r.address ++ rest)
      → parse_answer inet_ntop calloc fuel buffer p cnt
        ≡ ok (p + 2 + 4 + 4 + 2 + 4, some (found inet_ntop (join (l ∷ ls)) r))
  unfolding parse_answer answer_data record_head
  answer_at p cnt r rest (h3, h2, h4) le h =
      rw (name_at p h, type_at, ttl_at, datalen_at)
        (rw (
          store_at (p + 2 + 4 + 4 + 2) cnt (r.t3 * 256 + r.t2) r.address rest h4
            (omega (arith, window-le buffer p (record_head r) (r.address ++ rest) le h)) after_12))
    where
      after_2 :
          drop (p + 2) buffer
          ≡ 0 ∷ 1 ∷ 0 ∷ 1 ∷ r.t3 ∷ r.t2 ∷ r.t1 ∷ r.t0 ∷ 0 ∷ 4 ∷ (r.address ++ rest)
      after_2 = drop-window buffer p (0xC0 ∷ 12 ∷ []) _ h

      after_6 : drop (p + 2 + 4) buffer ≡ r.t3 ∷ r.t2 ∷ r.t1 ∷ r.t0 ∷ 0 ∷ 4 ∷ (r.address ++ rest)
      after_6 = drop-window buffer (p + 2) (0 ∷ 1 ∷ 0 ∷ 1 ∷ []) _ after_2

      after_10 : drop (p + 2 + 4 + 4) buffer ≡ 0 ∷ 4 ∷ (r.address ++ rest)
      after_10 = drop-window buffer (p + 2 + 4) (r.t3 ∷ r.t2 ∷ r.t1 ∷ r.t0 ∷ []) _ after_6

      after_12 : drop (p + 2 + 4 + 4 + 2) buffer ≡ r.address ++ rest
      after_12 = drop-window buffer (p + 2 + 4 + 4) (0 ∷ 4 ∷ []) _ after_10

      type_at : net_short buffer (p + 2) ≡ ok 1
      type_at = net_short-window buffer (p + 2) 0 1 after_2 (omega arith) (omega arith)

      ttl_at : net_short buffer (p + 2 + 4) ≡ ok (r.t3 * 256 + r.t2)
      ttl_at = net_short-window buffer (p + 2 + 4) r.t3 r.t2 after_6 h3 h2

      datalen_at : net_short buffer (p + 2 + 4 + 4) ≡ ok 4
      datalen_at = net_short-window buffer (p + 2 + 4 + 4) 0 4 after_10 (omega arith) (omega arith)

  answers_at :
      (rs : List HostRecord) (p : ℕ) (list : List DnsItem) (rest : Bytes)
      → All IsHost rs
      → p ≤ length buffer
      → drop p buffer ≡ records_bytes rs ++ rest
      → parse_answers inet_ntop calloc fuel buffer (length rs) p list
        ≡ ok (list ++ map (found inet_ntop (join (l ∷ ls))) rs)
  unfolding parse_answers records_bytes
  answers_at [] p list rest hosts le h = ap ok (sym (append-nil list))
  answers_at (r ∷ rs) p list rest (host, hosts) le h =
      rw (answer_at p (length list) r (records_bytes rs ++ rest) host le here) (
        answers_at rs (p + 2 + 4 + 4 + 2 + 4) (list ++ item ∷ []) rest hosts inside behind
        ∙ ap ok (append_assoc list (item ∷ []) (map (found inet_ntop (join (l ∷ ls))) rs)))
    where
      item : DnsItem
      item = found inet_ntop (join (l ∷ ls)) r

      here : drop p buffer ≡ record_head r ++ (r.address ++ (records_bytes rs ++ rest))
      here =
          (unfold record_head in
            h ∙ ap (λ b. record_head r ++ b) (append_assoc r.address (records_bytes rs) rest))

      next : Bytes
      next = records_bytes rs ++ rest

      inside : p + 2 + 4 + 4 + 2 + 4 ≤ length buffer
      inside = omega (arith, window-le buffer p (record_head r ++ r.address) next le here, host)

      behind : drop (p + 2 + 4 + 4 + 2 + 4) buffer ≡ records_bytes rs ++ rest
      behind =
          ap (λ n. drop n buffer) (omega (arith, host))
          ∙ drop-window buffer p (record_head r ++ r.address) next here

-- A hostname that `dns_parse_response` can hold: labels of 1 to 191 bytes, no zero byte, and less
-- than 128 bytes in all.
pub record IsName (ls : List Bytes) : Type 0 where
  pub short : All IsShort ls
  pub fits : length (join ls) < name_size
  pub plain : All (λ c. c ≢ 0) (join ls)

short_of : (ls : List Bytes) → All IsShort ls → All (λ l. (0 < length l) × (length l < 256)) ls
short_of [] h = tt
short_of (l ∷ ls) (h, hs) = ((h.0, omega arith), short_of ls hs)

-- On a reply to the query for the labels `l ∷ ls` (one question, then fewer than 2^16 host records
-- of type 1 with four bytes of address, each named by a pointer to byte 12), `dns_parse_response`
-- returns the number of records and lists them in order, each with the hostname, the text of its
-- address, and as time to live the high half of the 32 bits that the record holds. The labels have
-- 1 to 191 bytes and no zero byte, the hostname has less than 128, the fuel is three more than the
-- labels behind the first, and every `calloc` succeeds.
pub parse_response-reply :
    (inet_ntop : Bytes → Bytes) (calloc : ℕ → Bool) (fuel i0 i1 f0 f1 : ℕ) (l : Bytes)
    (ls : List Bytes) (rs : List HostRecord) (rest : Bytes)
    → IsName (l ∷ ls)
    → All IsHost rs
    → length rs < 2 ^ 16
    → length ls + 3 ≤ fuel
    → ((k : ℕ) → calloc k ≡ true)
    → parse_response inet_ntop calloc fuel (reply_bytes i0 i1 f0 f1 (l ∷ ls) rs rest)
      ≡ ok (pos (length rs), some (map (found inet_ntop (join (l ∷ ls))) rs))
unfolding parse_response skip_queries
parse_response-reply inet_ntop calloc fuel i0 i1 f0 f1 l ls rs rest name hosts many few memory =
    rw (querys_at, answers_at_6, skipped, memory 0)
      (rw parsed (ap (λ n. ok (pos n, some items)) (length-map rs _)))
  where
    buffer : Bytes
    buffer = reply_bytes i0 i1 f0 f1 (l ∷ ls) rs rest

    tail : Bytes
    tail = 0 ∷ 1 ∷ 0 ∷ 1 ∷ (records_bytes rs ++ rest)

    question : drop 12 buffer ≡ encode (l ∷ ls) ++ 0 ∷ tail
    question = (unfold reply_bytes in refl)

    counts : drop 4 buffer ≡ 0 ∷ 1 ∷ drop 6 buffer
    counts = (unfold reply_bytes in refl)

    count : drop 6 buffer ≡ length rs / 256 ∷ length rs % 256 ∷ drop 8 buffer
    count = (unfold reply_bytes in refl)

    querys_at : net_short buffer 4 ≡ ok 1
    querys_at = net_short-window buffer 4 0 1 counts (omega arith) (omega arith)

    answers_at_6 : net_short buffer 6 ≡ ok (length rs)
    answers_at_6 =
        net_short-window buffer 6 (length rs / 256) (length rs % 256) count (omega arith)
          (omega arith)
        ∙ ap ok (omega arith)

    ptr : ℕ
    ptr = 12 + length (encode (l ∷ ls)) + 1

    skipped : skip_name fuel buffer 12 ≡ ok ptr
    skipped =
        skip_name-encode fuel (l ∷ ls) buffer 12 tail (omega arith) (short_of (l ∷ ls) name.short)
          question

    items : List DnsItem
    items = map (found inet_ntop (join (l ∷ ls))) rs

    five : Bytes
    five = 0 ∷ 0 ∷ 1 ∷ 0 ∷ 1 ∷ []

    whole : drop 12 buffer ≡ (encode (l ∷ ls) ++ five) ++ (records_bytes rs ++ rest)
    whole = question ∙ sym (append_assoc (encode (l ∷ ls)) five (records_bytes rs ++ rest))

    size : length (encode (l ∷ ls) ++ five) ≡ length (encode (l ∷ ls)) + 5
    size = length-append (encode (l ∷ ls)) five

    long : 12 ≤ length buffer
    long = (unfold reply_bytes in omega arith)

    inside : ptr + 4 ≤ length buffer
    inside = omega (
      arith,
      window-le buffer 12 (encode (l ∷ ls) ++ five) (records_bytes rs ++ rest) long whole,
      size,
    )

    behind : drop (ptr + 4) buffer ≡ records_bytes rs ++ rest
    behind =
        ap (λ n. drop n buffer) (omega (arith, size))
        ∙ drop-window buffer 12 (encode (l ∷ ls) ++ five) (records_bytes rs ++ rest) whole

    parsed :
        parse_answers inet_ntop calloc fuel buffer (length rs) (ptr + 4) []
        ≡ ok (map (found inet_ntop (join (l ∷ ls))) rs)
    parsed =
        answers_at inet_ntop calloc fuel buffer l ls tail name.short question few name.fits
          name.plain memory rs (ptr + 4) [] rest hosts inside behind
