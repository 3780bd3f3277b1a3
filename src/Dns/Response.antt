-- ===== src/Dns/Response.antt =====
-- async_dns_client_noblock.c: `dns_parse_response`, which reads the addresses out of a reply.
-- Response/Skip and Response/Reply say what it finds in a well-formed reply, Response/Cursor where
-- its cursor stands.
pub mod Skip
pub mod Reply
pub mod Cursor
use networking_programming.Base.{
  ℕ, zero, suc, ◌+◌, ◌*◌, Bool, true, false, Option, none, some, List, [], ◌∷◌, ◌++◌, length,
  replicate, ◌==◌, if◌then◌else◌, not,
}
use networking_programming.Base.Int.{ℤ, pos, negsuc}
use networking_programming.Base.Words.{htons}
use networking_programming.Memory.{cstr, Bytes, Outcome, ok, fault, timeout, ◌>>=◌, read, slice}
use networking_programming.Dns.Name.{parse_name}

-- `struct dns_item`, and the `ttl` that is printed beside it.
pub record DnsItem : Type 0 where
  pub domain : Bytes
  pub ip : Bytes
  pub ttl : ℕ

-- `DNS_HOST` and `DNS_CNAME`
abbrev pub dns_host : ℕ
dns_host = 0x01

abbrev pub dns_cname : ℕ
dns_cname = 0x05

-- `sizeof aname` and `sizeof cname`
abbrev pub name_size : ℕ
name_size = 128

-- `ntohs(*(unsigned short*)ptr)`, and the same with `htons`.
unfoldable pub net_short : Bytes → ℕ → Outcome ℕ
unfolding htons
net_short b ptr = read b ptr >>= λ low. read b (ptr + 1) >>= λ high. ok (htons (low + high * 256))

-- `while (1)`: over the name of a question, on fuel; `ptr` behind its zero byte.
unfoldable pub skip_name : ℕ → Bytes → ℕ → Outcome ℕ
skip_name zero buffer ptr = timeout
skip_name (suc fuel) buffer ptr = read buffer ptr >>= λ flag.
    let next = ptr + (flag + 1) in
    let rest = skip_name fuel buffer next in if flag == 0 then ok next else rest

-- `for (i = 0; i < querys; i++)`; the second argument is the number of rounds left.
unfoldable pub skip_queries : ℕ → ℕ → Bytes → ℕ → Outcome ℕ
skip_queries fuel zero buffer ptr = ok ptr
skip_queries fuel (suc querys) buffer ptr =
    skip_name fuel buffer ptr >>= λ next. skip_queries fuel querys buffer (next + 4)

-- `inet_ntop` is the text of an address; `calloc` tells whether its call number `k` gives a block.
-- Call 0 is for the list, and each stored address makes two more.
module _ (inet_ntop : Bytes → Bytes) (calloc : ℕ → Bool) (fuel : ℕ) (buffer : Bytes) where
  -- The branch `datalen == 4` of a host record. To copy into a null block is undefined.
  unfoldable pub store_host : ℕ → Bytes → ℕ → ℕ → Outcome DnsItem
  store_host ptr aname ttl cnt = slice buffer ptr 4 >>= λ netip. cstr aname >>= λ domain.
      if not (calloc (2 * cnt + 1))
      then fault
      else if not (calloc (2 * cnt + 2))
      then fault
      else ok (record { domain = domain; ip = inet_ntop netip; ttl = ttl })

  -- What is done with the data of an answer, which begin at `ptr`: `ptr` behind the record, and
  -- the item if one is stored.
  unfoldable pub answer_data : ℕ → ℕ → ℕ → ℕ → Bytes → ℕ → Outcome (ℕ × Option DnsItem)
  answer_data ptr type ttl datalen aname cnt =
      if type == dns_cname
      then (parse_name fuel buffer ptr (replicate name_size 0) 0 >>= λ _. ok (ptr + datalen, none))
      else if type == dns_host
      then (if datalen == 4
          then (store_host ptr aname ttl cnt >>= λ item. ok (ptr + datalen, some item))
          else ok (ptr + datalen, none))
      else ok (ptr, none)

  -- One round of the loop over the answers.
  unfoldable pub parse_answer : ℕ → ℕ → Outcome (ℕ × Option DnsItem)
  parse_answer ptr cnt = parse_name fuel buffer ptr (replicate name_size 0) 0 >>= λ (aname, _).
      net_short buffer (ptr + 2) >>= λ type. net_short buffer (ptr + 2 + 4) >>= λ ttl.
      net_short buffer (ptr + 2 + 4 + 4) >>= λ datalen.
      answer_data (ptr + 2 + 4 + 4 + 2) type ttl datalen aname cnt

  -- `for (i = 0; i < answers; i++)`: rounds left, `ptr`, and the list so far, of `cnt` items.
  unfoldable pub parse_answers : ℕ → ℕ → List DnsItem → Outcome (List DnsItem)
  parse_answers zero ptr list = ok list
  parse_answers (suc answers) ptr list = parse_answer ptr (length list) >>= λ (next, found).
      parse_answers answers next (elim found [ none ↦ list | some item ↦ list ++ item ∷ [] ])

  -- `dns_parse_response`: what it returns, and `*domains`.
  unfoldable pub parse_response : Outcome (ℤ × Option (List DnsItem))
  parse_response = net_short buffer 4 >>= λ querys. net_short buffer 6 >>= λ answers.
      skip_queries fuel querys buffer 12 >>= λ ptr.
      if calloc 0
      then (parse_answers answers ptr [] >>= λ list. ok (pos (length list), some list))
      else ok (negsuc 0, none)
