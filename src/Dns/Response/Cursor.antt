-- ===== src/Dns/Response/Cursor.antt =====
-- How far `dns_parse_response` moves over an answer, whatever the answer is, and the end of the loop
-- over the name of a question.
use networking_programming.Base.{
  ℕ, zero, suc, ◌+◌, ◌<◌, ◌≡◌, ◌≢◌, Bool, ◌||◌, Option, inl, inr, length, arith, ◌==◌,
  if◌then◌else◌, ap, Option-cases, get_elem?, get_elem?-lt, replicate, ◌⊎◌,
}
use networking_programming.Memory.{Bytes, ok, fault, timeout, read, of_option}
use networking_programming.Memory.Laws.{>>=-eq-ok}
use networking_programming.Dns.Name.{parse_name}
use networking_programming.Dns.Response.{
  DnsItem, net_short, skip_name, answer_data, parse_answer, dns_host, dns_cname, name_size,
}

-- A record that `dns_parse_response` gets over, and where its `ptr` stands afterwards.
pub record Moved (buffer : Bytes) (ptr next : ℕ) : Type 0 where
  pub type : ℕ
  pub datalen : ℕ
  pub typed : net_short buffer (ptr + 2) ≡ ok type
  pub sized : net_short buffer (ptr + 2 + 4 + 4) ≡ ok datalen
  pub moved : next ≡ (
      if type == dns_cname || type == dns_host
      then ptr + 2 + 4 + 4 + 2 + datalen
      else ptr + 2 + 4 + 4 + 2)

module _ (inet_ntop : Bytes → Bytes) (calloc : ℕ → Bool) (fuel : ℕ) (buffer : Bytes) where
  answer_data_moves :
      (ptr type ttl datalen : ℕ) (aname : Bytes) (cnt : ℕ) {next : ℕ} {found : Option DnsItem}
      → answer_data inet_ntop calloc fuel buffer ptr type ttl datalen aname cnt ≡ ok (next, found)
      → next ≡ (if type == dns_cname || type == dns_host then ptr + datalen else ptr)
  unfolding answer_data
  answer_data_moves ptr type ttl datalen aname cnt h = ground arith

  -- After an answer that is read without undefined behaviour, `ptr` has moved over the two bytes
  -- of name, the ten bytes of fixed fields and, if the type is CNAME or HOST, the `datalen`
  -- bytes of data; for any other type it stands at the data.
  pub parse_answer_moves :
      (ptr cnt next : ℕ) (found : Option DnsItem)
      → parse_answer inet_ntop calloc fuel buffer ptr cnt ≡ ok (next, found)
      → Moved buffer ptr next
  unfolding parse_answer
  parse_answer_moves ptr cnt next found h =
      let (named, _, h1) = >>=-eq-ok (parse_name fuel buffer ptr (replicate name_size 0) 0) _ h in
      let (type, typed, h2) = >>=-eq-ok (net_short buffer (ptr + 2)) _ h1 in
      let (ttl, _, h3) = >>=-eq-ok (net_short buffer (ptr + 2 + 4)) _ h2 in
      let (datalen, sized, h4) = >>=-eq-ok (net_short buffer (ptr + 2 + 4 + 4)) _ h3 in
      record {
        type = type;
        datalen = datalen;
        typed = typed;
        sized = sized;
        moved = answer_data_moves (ptr + 2 + 4 + 4 + 2) type ttl datalen named.0 cnt h4;
      }

read-cases :
    (b : Bytes) (i : ℕ) → (read b i ≡ fault) ⊎ ((x : ℕ) × (read b i ≡ ok x) × (i < length b))
unfolding read
read-cases b i = elim (Option-cases (get_elem? b i)) [
  | inl e ↦ inl (ap of_option e)
  | inr (x, e) ↦ inr (x, ap of_option e, get_elem?-lt b i e)
]

-- The loop over the name of a question ends, at a zero byte or by leaving the array, before its
-- fuel does, if the fuel is positive and reaches past the end of the array from `ptr`.
pub skip_name_ends :
    (fuel : ℕ) (buffer : Bytes) (ptr : ℕ)
    → 0 < fuel
    → length buffer < ptr + fuel
    → skip_name fuel buffer ptr ≢ timeout
unfolding skip_name
skip_name_ends zero buffer ptr h enough = absurd (omega arith)
skip_name_ends (suc fuel) buffer ptr h enough = elim (read-cases buffer ptr) [
  | inl out ↦ rw out (λ e. cc)
  | inr (flag, e, inside) ↦
      rw e
        (ground (arith, skip_name_ends fuel buffer (ptr + (flag + 1)) (omega arith) (omega arith)))
]
