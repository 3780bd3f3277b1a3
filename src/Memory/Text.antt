-- ===== src/Memory/Text.antt =====
-- Texts in C arrays: `sprintf` writes one with its NUL, and `strlen` finds the NUL again.
use Prim.Native.Char.{code}
use Prim.Native.String.{String}
use networking_programming.Base.{
  ap, Bool-cases, inl, inr, ◌-◌, replicate, zero, suc, ◌≤◌, ℕ, ◌+◌, ◌<◌, ◌≡◌, ◌≢◌, refl, false, [],
  ◌∷◌, ◌++◌, length, arith, All, ◌==◌, append_assoc, length-append, drop,
}
use networking_programming.Memory.{Bytes, Outcome, ok, splice, patch, overwrite, cstr, ◌>>=◌}
use networking_programming.Memory.Laws.{splice-append, patch-ok}

-- The characters of a literal.
abbrev pub codes : String → Bytes
codes String.[] = []
codes (String.◌∷◌ c s) = code c ∷ codes s

==-false : {n : ℕ} → n ≢ 0 → (n == 0) ≡ false
==-false {n} h = ground arith

pub cstr-append : (s rest : Bytes) → All (λ c. c ≢ 0) s → cstr (s ++ 0 ∷ rest) ≡ ok s
unfolding cstr
cstr-append [] rest h = refl
cstr-append (c ∷ s) rest (hc, hs) = rw (==-false hc, cstr-append s rest hs)

-- `sprintf(b, …)` for a text, and the `strlen(b)` bytes that `b` then holds: the array and these.
unfoldable pub print_text : Bytes → Bytes → Outcome (Bytes × Bytes)
print_text b text = patch b 0 (text ++ 0 ∷ []) >>= λ b'. cstr b' >>= λ message. ok (b', message)

-- A text without a zero byte that fits with its NUL is what is then found in the array.
pub print_text-ok :
    (b text : Bytes)
    → length text < length b
    → All (λ c. c ≢ 0) text
    → print_text b text ≡ ok (splice b 0 (text ++ 0 ∷ []), text)
unfolding print_text
print_text-ok b text fits plain =
    let long : length (text ++ 0 ∷ []) ≡ length text + 1 = length-append text (0 ∷ []) in
    rw
      (
        patch-ok b 0 (text ++ 0 ∷ []) (omega arith),
        splice-append b 0 (text ++ 0 ∷ []) (omega arith),
        append_assoc text (0 ∷ []) (drop (0 + length (text ++ 0 ∷ [])) b),
        cstr-append text (drop (0 + length (text ++ 0 ∷ [])) b) plain,
      )
      refl

-- A message in a zeroed array is followed by zeros.
pub splice_front :
    (n : ℕ) (bs : Bytes)
    → length bs ≤ n
    → splice (replicate n 0) 0 bs ≡ bs ++ replicate (n - length bs) 0
unfolding splice overwrite
splice_front zero [] fits = refl
splice_front zero (b ∷ bs) fits = absurd (omega arith)
splice_front (suc n) [] fits = let e : suc n - 0 ≡ suc n = omega arith in rw e refl
splice_front (suc n) (b ∷ bs) fits =
    let e : suc n - suc (length bs) ≡ n - length bs = omega arith in
    rw e (ap (λ (c : Bytes). b ∷ c) (splice_front n bs (omega arith)))

cstr_ends : (s rest : Bytes) → (text : Bytes) × (cstr (s ++ 0 ∷ rest) ≡ ok text)
unfolding cstr
cstr_ends [] rest = ([], refl)
cstr_ends (c ∷ s) rest =
    let (text, e) = cstr_ends s rest in
    elim (Bool-cases (c == 0)) [
      | inl last ↦ ([], rw last refl)
      | inr more ↦ (c ∷ text, rw (more, e) refl)
    ]

cstr_zeros :
    (s : Bytes) (m k : ℕ) → m ≡ suc k → (text : Bytes) × (cstr (s ++ replicate m 0) ≡ ok text)
cstr_zeros s m k e = rw e (cstr_ends s (replicate k 0))

-- A message that does not fill a zeroed array can be printed from it.
pub cstr-short :
    (n : ℕ) (s : Bytes)
    → length s < n
    → (text : Bytes) × (cstr (splice (replicate n 0) 0 s) ≡ ok text)
cstr-short n s short =
    let (text, e) = cstr_zeros s (n - length s) (n - length s - 1) (omega arith) in
    (text, rw (splice_front n s (omega arith)) e)
