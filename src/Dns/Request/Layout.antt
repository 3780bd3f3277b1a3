-- ===== src/Dns/Request/Layout.antt =====
-- Where `dns_create_question` puts its bytes.
use networking_programming.Base.{
  ℕ, ◌+◌, ◌≤◌, ◌≡◌, refl, sym, ap, ◌∙◌, List, [], ◌∷◌, ◌++◌, length, arith, All, Option, some,
  append-nil, append_assoc, length-append, ◌%◌,
}
use networking_programming.Base.Int.{pos}
use networking_programming.Base.Words.{htons}
use networking_programming.Memory.{Bytes, ok, splice}
use networking_programming.Memory.Laws.{
  patch-ok, length-splice, splice-splice, splice_tail, splice_whole,
}
use networking_programming.Dns.Request.{dot, tokens, write_labels, create_question, DnsQuestion}
use networking_programming.Dns.Request.Tokens.{
  encode, join, IsLabel, length-encode-tokens, tokens-join,
}

write_labels_step :
    (t : Bytes) (ts : List Bytes) (b : Bytes) (p : ℕ)
    → p + length t + 2 ≤ length b
    → write_labels (t ∷ ts) b p
      ≡ write_labels ts (splice b p ((length t % 256 ∷ t) ++ 0 ∷ [])) (p + 1 + length t)
unfolding write_labels
write_labels_step t ts b p h = rw (
  patch-ok b p (length t % 256 ∷ []) (omega arith),
  patch-ok (splice b p (length t % 256 ∷ [])) (p + 1) (t ++ 0 ∷ []) room,
  splice-splice b p (length t % 256 ∷ []) (t ++ 0 ∷ []),
)
  where
    room : p + 1 + length (t ++ 0 ∷ []) ≤ length (splice b p (length t % 256 ∷ []))
    room = omega (arith, length-splice b p (length t % 256 ∷ []), length-append t (0 ∷ []))

-- The loop writes each label behind its length, and one NUL behind the last label.
pub write_labels_lem :
    (t : Bytes) (ts : List Bytes) (b : Bytes) (p : ℕ)
    → p + length (encode (t ∷ ts)) + 1 ≤ length b
    → write_labels (t ∷ ts) b p ≡ ok (splice b p (encode (t ∷ ts) ++ 0 ∷ []))
unfolding encode
write_labels_lem t [] b p h =
    write_labels_step t [] b p (omega (arith, length-append t []))
    ∙ (unfold write_labels in rw (append-nil t))
write_labels_lem t (k ∷ ks) b p h =
    write_labels_step t (k ∷ ks) b p (omega (arith, length-append t (encode (k ∷ ks))))
    ∙ write_labels_lem k ks b' (p + 1 + length t)
        (omega (arith, length-append t (encode (k ∷ ks)), length-splice b p (head ++ 0 ∷ [])))
    ∙ ap ok tail
  where
    head : Bytes
    head = length t % 256 ∷ t

    b' : Bytes
    b' = splice b p (head ++ 0 ∷ [])

    rest : Bytes
    rest = encode (k ∷ ks) ++ 0 ∷ []

    tail : splice b' (p + 1 + length t) rest ≡ splice b p ((head ++ encode (k ∷ ks)) ++ 0 ∷ [])
    tail =
        ap (λ i. splice b' i rest) (omega arith)
        ∙ splice_tail b p head (0 ∷ []) rest (omega arith)
        ∙ ap (splice b p) (sym (append_assoc head (encode (k ∷ ks)) (0 ∷ [])))

-- What the loop leaves in the block: nothing is written when there is no label.
unfoldable pub labelled : List Bytes → Bytes → Bytes
labelled [] block = block
labelled (t ∷ ts) block = splice block 0 (encode (t ∷ ts) ++ 0 ∷ [])

length-labelled : (ts : List Bytes) (block : Bytes) → length (labelled ts block) ≡ length block
unfolding labelled
length-labelled [] block = refl
length-labelled (t ∷ ts) block = length-splice block 0 (encode (t ∷ ts) ++ 0 ∷ [])

write_labels-labelled :
    (ts : List Bytes) (block : Bytes)
    → length (encode ts) + 1 ≤ length block
    → write_labels ts block 0 ≡ ok (labelled ts block)
unfolding labelled
write_labels-labelled [] block h = (unfold write_labels in refl)
write_labels-labelled (t ∷ ts) block h = write_labels_lem t ts block 0 (omega arith)

pub length-encode-join :
    (l : Bytes) (ls : List Bytes) → length (encode (l ∷ ls)) ≡ length (join (l ∷ ls)) + 1
unfolding encode join
length-encode-join l [] = omega (arith, ap length (append-nil l))
length-encode-join l (k ∷ ls) = omega (
  arith,
  length-append l (encode (k ∷ ls)),
  length-append l (dot ∷ join (k ∷ ls)),
  length-encode-join k ls,
)

-- The question that `dns_create_question` leaves behind for a block of the right size.
abbrev pub question_of : ℕ → Bytes → DnsQuestion
question_of n qname = record {
  length = n + 2;
  qtype = htons 1;
  qclass = htons 1;
  qname = some qname;
}

module _ (malloc : ℕ → Option Bytes) (strdup : Bytes → Option Bytes) (question : DnsQuestion)
    (hostname : Bytes) {block : Bytes} (got : malloc (length hostname + 2) ≡ some block)
    (sized : length block ≡ length hostname + 2) (copied : strdup hostname ≡ some hostname) where
  create_question_lem :
      create_question malloc strdup (some question) hostname
      ≡ ok (pos 0, some (question_of (length hostname) (labelled (tokens hostname []) block)))
  unfolding create_question
  create_question_lem =
      rw (got, copied, create_question)
        (rw (
          write_labels-labelled (tokens hostname []) block
            (omega (arith, length-encode-tokens hostname []))))

  -- For every hostname, if `malloc` gives a block of the size asked and `strdup` a copy,
  -- `dns_create_question` returns 0 without a write outside the block.
  pub create_question_safe :
      (qname : Bytes) × (create_question malloc strdup (some question) hostname
        ≡ ok (pos 0, some (question_of (length hostname) qname)))
      × (length qname ≡ length hostname + 2)
  create_question_safe = (
    labelled (tokens hostname []) block,
    create_question_lem,
    length-labelled (tokens hostname []) block ∙ sized,
  )

  -- For a hostname in which `strtok` finds no label, `dns_create_question` returns 0 and the
  -- block is as `malloc` gave it, without a zero byte written.
  pub create_question_no_label :
      tokens hostname [] ≡ []
      → create_question malloc strdup (some question) hostname
        ≡ ok (pos 0, some (question_of (length hostname) block))
  unfolding labelled
  create_question_no_label none_found =
      create_question_lem
      ∙ ap (λ ts. ok (pos 0, some (question_of (length hostname) (labelled ts block)))) none_found

  -- If the hostname is one or more labels with dots between them, each of 1 to 255 bytes without a
  -- dot, `malloc` gives a block of the size asked and `strdup` a copy, then `dns_create_question`
  -- returns 0 and the block holds each label behind its length and a zero byte at its end: no byte
  -- is left as `malloc` gave it.
  pub create_question-join :
      (l : Bytes) (ls : List Bytes)
      → All IsLabel (l ∷ ls)
      → hostname ≡ join (l ∷ ls)
      → create_question malloc strdup (some question) hostname
        ≡ ok (pos 0, some (question_of (length hostname) (encode (l ∷ ls) ++ 0 ∷ [])))
  unfolding labelled
  create_question-join l ls labels e =
      create_question_lem
      ∙ ap (λ ts. ok (pos 0, some (question_of (length hostname) (labelled ts block)))) found
      ∙ ap (λ b. ok (pos 0, some (question_of (length hostname) b))) whole
    where
      found : tokens hostname [] ≡ l ∷ ls
      found = ap (λ s. tokens s []) e ∙ tokens-join (l ∷ ls) labels

      whole : splice block 0 (encode (l ∷ ls) ++ 0 ∷ []) ≡ encode (l ∷ ls) ++ 0 ∷ []
      whole = splice_whole block (encode (l ∷ ls) ++ 0 ∷ []) (
          omega
            (arith, length-append (encode (l ∷ ls)) (0 ∷ []), length-encode-join l ls, ap length e))
