-- ===== src/Dns/Request/Tokens.antt =====
-- The labels of a hostname, and how `strtok` finds them.
use networking_programming.Base.{
  ◌+◌, ◌≤◌, ◌<◌, ◌≡◌, ◌≢◌, refl, sym, ap, ◌∙◌, List, [], ◌∷◌, ◌++◌, length, arith, All, append-nil,
  append_assoc, length-append, ◌%◌,
}
use networking_programming.Memory.{Bytes}
use networking_programming.Dns.Request.{dot, emit, tokens}

-- The bytes that the labels take on the wire, each behind its length.
unfoldable pub encode : List Bytes → Bytes
encode [] = []
encode (l ∷ ls) = (length l % 256 ∷ l) ++ encode ls

-- The labels with a dot between them.
unfoldable pub join : List Bytes → Bytes
join [] = []
join (l ∷ []) = l
join (l ∷ k ∷ ls) = l ++ dot ∷ join (k ∷ ls)

-- A label whose length is a byte.
abbrev pub IsLabel : Bytes → Type 0
IsLabel l = (l ≢ []) × (length l < 256) × All (λ c. c ≢ dot) l

-- The labels with their lengths need at most one byte more than the text that is read.
pub length-encode-tokens :
    (s part : Bytes) → length (encode (tokens s part)) ≤ length s + length part + 1
unfolding tokens encode
length-encode-tokens [] [] = omega arith
length-encode-tokens [] (p ∷ part) = omega (arith, length-append (p ∷ part) [])
length-encode-tokens (c ∷ s) [] =
    ground (arith, length-encode-tokens s [], length-encode-tokens s (c ∷ []))
length-encode-tokens (c ∷ s) (p ∷ part) = ground (
  arith,
  length-encode-tokens s [],
  length-encode-tokens s ((p ∷ part) ++ c ∷ []),
  length-append part (c ∷ []),
  length-append part (encode (tokens s [])),
)

tokens_run :
    (l rest part : Bytes) → All (λ c. c ≢ dot) l → tokens (l ++ rest) part ≡ tokens rest (part ++ l)
unfolding tokens
tokens_run [] rest part h = ap (tokens rest) (sym (append-nil part))
tokens_run (c ∷ l) rest part (hc, hl) =
    ground (arith, tokens_run l rest (part ++ c ∷ []) hl, append_assoc part (c ∷ []) l)

tokens-dot : (rest part : Bytes) → tokens (dot ∷ rest) part ≡ emit part (tokens rest [])
unfolding tokens
tokens-dot rest part = refl

emit_label : (l : Bytes) (rest : List Bytes) → l ≢ [] → emit l rest ≡ l ∷ rest
unfolding emit
emit_label [] rest h = absurd (h refl)
emit_label (c ∷ l) rest h = refl

-- `strtok` finds the labels of a hostname again.
pub tokens-join : (ls : List Bytes) → All IsLabel ls → tokens (join ls) [] ≡ ls
unfolding join
tokens-join [] h = unfold tokens emit in refl
tokens-join (l ∷ []) ((ne, _, nodot), _) =
    ap (λ s. tokens s []) (sym (append-nil l)) ∙ tokens_run l [] [] nodot ∙ last
  where
    last : tokens [] l ≡ l ∷ []
    last = (unfold tokens in emit_label l [] ne)
tokens-join (l ∷ k ∷ ls) ((ne, _, nodot), h) =
    tokens_run l (dot ∷ join (k ∷ ls)) [] nodot
    ∙ tokens-dot (join (k ∷ ls)) l
    ∙ emit_label l _ ne
    ∙ ap (λ t. l ∷ t) (tokens-join (k ∷ ls) h)
