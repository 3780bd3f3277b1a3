-- ===== src/Dns/Request/Build.antt =====
-- Where `dns_build_request` puts its bytes.
use networking_programming.Base.{
  ℕ, ◌+◌, ◌≤◌, ◌≡◌, refl, sym, ap, ◌∙◌, ◌++◌, length, arith, take, drop, take-length, leb, le→leb,
  false, if◌then◌else◌, some, length-append,
}
use native.Mathlib.Decide.{dec_le}
use networking_programming.Memory.{Bytes, Outcome, ok, fault, ◌>>=◌, patch, splice}
use networking_programming.Memory.Laws.{patch-ok, patch-fault, patch-patch, slice-ok}
use networking_programming.Dns.Request.{
  DnsQuestion, DnsHeader, header_bytes, short_bytes, qname_bytes, build_request, header_size,
}

-- The bytes of a request: header, name, type and class, one behind the other.
unfoldable pub request_bytes : DnsHeader → DnsQuestion → Bytes → Bytes
request_bytes header question qname =
    header_bytes header ++ qname ++ short_bytes question.qtype ++ short_bytes question.qclass

module _ (header : DnsHeader) (question : DnsQuestion) {qname : Bytes}
    (named : question.qname ≡ some qname) (full : length qname ≡ question.length) where
  qname_bytes_lem : qname_bytes question ≡ ok qname
  unfolding qname_bytes
  qname_bytes_lem =
      rw named (slice-ok qname 0 question.length (omega arith) ∙ ap ok (take_all qname full))
    where
      take_all : (b : Bytes) {n : ℕ} → length b ≡ n → take n (drop 0 b) ≡ b
      take_all b e = ap (λ m. take m b) (sym e) ∙ take-length b

  -- The four copies of `dns_build_request` are one copy of the request's bytes.
  build_request-patch :
      (request : Bytes)
      → build_request header question request ≡ (
          patch request 0 (request_bytes header question qname) >>= λ r.
          ok (question.length + 2 + 2 + header_size, r))
  unfolding build_request request_bytes
  build_request-patch request = rw qname_bytes_lem (
      patch-patch request 0 12 hb qname
        (λ r2. patch r2 (12 + n) qt >>= λ r3. patch r3 (12 + n + 2) qc >>= last) refl
      ∙ patch-patch request 0 (12 + n) (hb ++ qname) qt (λ r3. patch r3 (12 + n + 2) qc >>= last)
          (omega (arith, length-append hb qname))
      ∙ patch-patch request 0 (12 + n + 2) ((hb ++ qname) ++ qt) qc last
          (omega (arith, length-append hb qname, length-append (hb ++ qname) qt)))
    where
      hb : Bytes
      hb = header_bytes header

      qt : Bytes
      qt = short_bytes question.qtype

      qc : Bytes
      qc = short_bytes question.qclass

      n : ℕ
      n = question.length

      last : Bytes → Outcome (ℕ × Bytes)
      last r = ok (n + 2 + 2 + 12, r)

  pub length-request_bytes : length (request_bytes header question qname) ≡ question.length + 16
  unfolding request_bytes short_bytes header_bytes
  length-request_bytes = omega (
    arith,
    length-append (header_bytes header ++ qname) (short_bytes question.qtype),
    length-append (header_bytes header ++ qname ++ short_bytes question.qtype)
        (short_bytes question.qclass),
  )

  -- For a question whose name block has the length that it states, `dns_build_request` writes
  -- header, name, type and class one behind the other at the start of `request` and returns
  -- `length + 16` if `request` has that many bytes, and is undefined behaviour if it has less.
  pub build_request_lem :
      (request : Bytes)
      → build_request header question request ≡ (
          if leb (question.length + 16) (length request)
          then ok (question.length + 16, splice request 0 (request_bytes header question qname))
          else fault)
  build_request_lem request = elim (dec_le (question.length + 16) (length request)) [
    | yes room ↦
        build_request-patch request
        ∙ (rw (patch-ok request 0 bytes (omega (arith, length-request_bytes)), le→leb _ _ room)
            (ap (λ n. ok (n, splice request 0 bytes)) (omega arith)))
    | no small ↦
        build_request-patch request
        ∙ (rw (patch-fault request 0 bytes (omega (arith, length-request_bytes)), too_small small))
  ]
    where
      bytes : Bytes
      bytes = request_bytes header question qname

      too_small :
          ¬ (question.length + 16 ≤ length request)
          → leb (question.length + 16) (length request) ≡ false
      too_small h = ground arith
