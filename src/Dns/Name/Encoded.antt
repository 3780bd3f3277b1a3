-- ===== src/Dns/Name/Encoded.antt =====
-- The names that `dns_create_question` writes, read as `dns_parse_name` reads them.
use networking_programming.Base.{
  ℕ, zero, suc, ◌+◌, ◌%◌, ◌<◌, ◌≡◌, refl, ap, ◌∙◌, Bool, true, false, if◌then◌else◌, List, [], ◌∷◌,
  ◌++◌, length, arith, All, append-nil, append_assoc, drop, length-drop,
}
use networking_programming.Memory.{Bytes, ok, read, slice}
use networking_programming.Memory.Window.{read-window, drop-window, slice-window}
use networking_programming.Dns.Name.{is_pointer}
use networking_programming.Dns.Name.Spells.{Spells, last, more, rounds}
use networking_programming.Dns.Request.Tokens.{encode, join}

-- No byte below the bound is a pointer.
no_pointer : ℕ → Bool
no_pointer zero = true
no_pointer (suc byte) = if is_pointer byte then false else no_pointer byte

no_pointer-192 : no_pointer 192 ≡ true
unfolding no_pointer is_pointer
no_pointer-192 = refl

is_pointer-lt : (bound byte : ℕ) → byte < bound → no_pointer bound ≡ true → is_pointer byte ≡ false
unfolding no_pointer
is_pointer-lt zero byte lt plain = absurd (omega arith)
is_pointer-lt (suc bound) byte lt plain = ground (arith, is_pointer-lt bound byte)

-- A length byte below 192 is no pointer.
pub is_pointer-short : (x : ℕ) → x < 192 → is_pointer x ≡ false
is_pointer-short x h = is_pointer-lt 192 x h no_pointer-192

-- A label that its length byte can announce without looking like a pointer.
abbrev pub IsShort : Bytes → Type 0
IsShort l = (0 < length l) × (length l < 192)

drop-lt : (b : Bytes) (p : ℕ) {x : ℕ} {xs : Bytes} → drop p b ≡ x ∷ xs → p < length b
drop-lt b p h = omega (arith, length-drop p b, ap length h)

module _ (chunk : Bytes) where
  -- What stands around one label on the wire.
  record Label (p : ℕ) (l tail : Bytes) : Type 0 where
    count : read chunk p ≡ ok (length l)
    text : slice chunk (p + 1) (length l) ≡ ok l
    after : drop (p + 1 + length l) chunk ≡ tail

  Label-at :
      (p : ℕ) (l tail : Bytes)
      → length l < 192
      → drop p chunk ≡ (length l % 256 ∷ l) ++ tail
      → Label p l tail
  Label-at p l tail short h = record {
    count = read-window chunk p h ∙ ap ok (omega arith);
    text = slice-window chunk (p + 1) l tail (omega (arith, drop-lt chunk p h)) rest;
    after = drop-window chunk (p + 1) l tail rest;
  }
    where
      rest : drop (p + 1) chunk ≡ l ++ tail
      rest = drop-window chunk p (length l % 256 ∷ []) (l ++ tail) h

  -- A name as `dns_create_question` lays it out spells the hostname whose labels it holds.
  pub spells-encode :
      (l : Bytes) (ls : List Bytes) (p : ℕ) (rest : Bytes)
      → All IsShort (l ∷ ls)
      → drop p chunk ≡ encode (l ∷ ls) ++ 0 ∷ rest
      → Spells chunk p (join (l ∷ ls))
  unfolding encode join
  spells-encode l [] p rest ((some_bytes, short), _) h =
      last at.count (omega arith) (is_pointer-short (length l) short) at.text
        (read-window chunk (p + 1 + length l) at.after)
    where
      at : Label p l (0 ∷ rest)
      at =
          Label-at p l (0 ∷ rest) short
            (h ∙ ap (λ b. b ++ 0 ∷ rest) (append-nil (length l % 256 ∷ l)))
  spells-encode l (k ∷ ks) p rest ((some_bytes, short), others) h =
      more at.count (omega arith) (is_pointer-short (length l) short) at.text
        (read-window chunk (p + 1 + length l) at.after) (omega (arith, others.0))
        (spells-encode k ks (p + 1 + length l) rest others at.after)
    where
      at : Label p l (encode (k ∷ ks) ++ 0 ∷ rest)
      at =
          Label-at p l (encode (k ∷ ks) ++ 0 ∷ rest) short
            (h ∙ append_assoc (length l % 256 ∷ l) (encode (k ∷ ks)) (0 ∷ rest))

  -- One round for each label and one for the zero byte.
  pub rounds-spells-encode :
      (l : Bytes) (ls : List Bytes) (p : ℕ) (rest : Bytes) (short : All IsShort (l ∷ ls))
      (h : drop p chunk ≡ encode (l ∷ ls) ++ 0 ∷ rest)
      → rounds (spells-encode l ls p rest short h) ≡ length ls + 2
  unfolding spells-encode rounds
  rounds-spells-encode l [] p rest (short, _) h = refl
  rounds-spells-encode l (k ∷ ks) p rest (short, others) h =
      omega (arith, rounds-spells-encode k ks (p + 1 + length l) rest others _)
