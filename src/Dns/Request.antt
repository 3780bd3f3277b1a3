-- ===== src/Dns/Request.antt =====
-- async_dns_client_noblock.c: `dns_create_header`, `dns_create_question`, `dns_build_request`.
-- A `short` in memory is two bytes, the low one first; a hostname is the bytes before its NUL.
pub mod Tokens
pub mod Layout
pub mod Build
use Prim.Native.Nat.{bit_or}
use networking_programming.Base.{
  ℕ, ◌+◌, ◌*◌, ◌/◌, ◌%◌, ◌^◌, ◌≡◌, Option, none, some, List, [], ◌∷◌, ◌++◌, true, false, length,
  ◌==◌, if◌then◌else◌,
}
use networking_programming.Base.Words.{htons}
use networking_programming.Base.Int.{ℤ, pos, negsuc}
use networking_programming.Memory.{Bytes, Outcome, ok, fault, timeout, ◌>>=◌, patch, slice}

-- `struct dns_header`
pub record DnsHeader : Type 0 where
  pub id : ℕ
  pub flags : ℕ
  pub qdcount : ℕ
  pub ancount : ℕ
  pub nscount : ℕ
  pub arcount : ℕ

-- `struct dns_question`; a null `qname` is `none`.
pub record DnsQuestion : Type 0 where
  pub length : ℕ
  pub qtype : ℕ
  pub qclass : ℕ
  pub qname : Option Bytes

-- The two bytes of a `short` in memory.
unfoldable pub short_bytes : ℕ → Bytes
short_bytes v = v % 256 ∷ v / 256 % 256 ∷ []

abbrev pub zero_header : DnsHeader
zero_header = record { id = 0; flags = 0; qdcount = 0; ancount = 0; nscount = 0; arcount = 0 }

abbrev pub zero_question : DnsQuestion
zero_question = record { length = 0; qtype = 0; qclass = 0; qname = none }

-- `dns_create_header`; the first argument is what `random()` returns.
unfoldable pub create_header : ℕ → Option DnsHeader → ℤ × Option DnsHeader
unfolding htons
create_header random none = (negsuc 0, none)
create_header random (some header) = (
  pos 0,
  some (record zero_header {
    id = random % 2 ^ 16;
    flags = bit_or 0 (htons 0x0100);
    qdcount = htons 1;
  }),
)

abbrev pub dot : ℕ
dot = b'.'

-- What `strtok` does with a part that ends: an empty one is passed over.
unfoldable pub emit : Bytes → List Bytes → List Bytes
emit [] rest = rest
emit (c ∷ part) rest = (c ∷ part) ∷ rest

-- The tokens that `strtok(hostname_dup, ".")`, `strtok(NULL, ".")`, … return until NULL.
-- The second argument is the part read so far.
unfoldable pub tokens : Bytes → Bytes → List Bytes
unfolding emit
tokens [] part = emit part []
tokens (c ∷ s) part = elim (c == dot) [
  | true ↦ emit part (tokens s [])
  | false ↦ tokens s (part ++ c ∷ [])
]

-- The loop `while (token != NULL)`: the length in one `char`, then `strncpy` of the token with its
-- NUL. The last argument is `qname_p - qname`.
unfoldable pub write_labels : List Bytes → Bytes → ℕ → Outcome Bytes
write_labels [] qname qname_p = ok qname
write_labels (token ∷ rest) qname qname_p =
    patch qname qname_p (length token % 256 ∷ []) >>= λ counted.
    patch counted (qname_p + 1) (token ++ 0 ∷ []) >>= λ copied.
    write_labels rest copied (qname_p + 1 + length token)

-- `dns_create_question`. `malloc` gives the block of the asked size, whatever bytes it holds, or
-- NULL; so does `strdup` with its copy, and `strtok` of a null copy is undefined.
unfoldable pub create_question :
    (ℕ → Option Bytes)
    → (Bytes → Option Bytes)
    → Option DnsQuestion
    → Bytes
    → Outcome (ℤ × Option DnsQuestion)
unfolding tokens write_labels
create_question malloc strdup none hostname = ok (negsuc 0, none)
create_question malloc strdup (some question) hostname = elim (malloc (length hostname + 2)) [
  | none ↦ ok (negsuc 1, some zero_question)
  | some block ↦ elim (strdup hostname) [
    | none ↦ fault
    | some hostname_dup ↦ write_labels (tokens hostname_dup []) block 0 >>= λ qname. ok (
      pos 0,
      some (record {
        length = length hostname + 2;
        qtype = htons 1;
        qclass = htons 1;
        qname = some qname;
      }),
    )
  ]
]

-- `sizeof(struct dns_header)`
abbrev pub header_size : ℕ
header_size = 12

unfoldable pub header_bytes : DnsHeader → Bytes
unfolding short_bytes
header_bytes h =
    short_bytes h.id
    ++ short_bytes h.flags
    ++ short_bytes h.qdcount
    ++ short_bytes h.ancount
    ++ short_bytes h.nscount
    ++ short_bytes h.arcount

-- The bytes that `memcpy(_, question->qname, question->length)` reads.
unfoldable pub qname_bytes : DnsQuestion → Outcome Bytes
qname_bytes q = elim q.qname [
  | some qname ↦ slice qname 0 q.length
  | none ↦ if q.length == 0 then ok [] else fault
]

-- `dns_build_request`: the length that it returns, and the array `request` after the four copies.
unfoldable pub build_request : DnsHeader → DnsQuestion → Bytes → Outcome (ℕ × Bytes)
unfolding header_bytes qname_bytes short_bytes
build_request header question request =
    let question_s = question.length + 2 + 2 in
    let length = question_s + header_size in
    patch request 0 (header_bytes header) >>= λ r1. qname_bytes question >>= λ qname.
    patch r1 header_size qname >>= λ r2.
    patch r2 (header_size + question.length) (short_bytes question.qtype) >>= λ r3.
    patch r3 (header_size + question.length + 2) (short_bytes question.qclass) >>= λ r4.
    ok (length, r4)
