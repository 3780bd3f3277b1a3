-- ===== src/Base/Decimal.antt =====
-- The decimal text of an `int`, as `%d` writes it.
use networking_programming.Base.{
  ℕ, zero, suc, ◌+◌, ◌-◌, ◌*◌, ◌/◌, ◌%◌, ◌^◌, ◌≤◌, ◌<◌, ◌≡◌, ◌≢◌, refl, List, [], ◌∷◌, ◌++◌, length,
  All, arith, ltb, if◌then◌else◌, length-append, Bool-cases, inl, inr, ◌⊎◌, ltb→lt,
}
use networking_programming.Base.Int.{ℤ, pos, negsuc}

-- At most as many digits as the first argument says.
unfoldable pub digits : ℕ → ℕ → List ℕ
digits zero n = []
digits (suc fuel) n =
    let rest = digits fuel (n / 10) in
    if ltb n 10 then (b'0' + n) ∷ [] else rest ++ (b'0' + n % 10) ∷ []

-- A number of 31 bits has at most ten digits.
abbrev pub decimal : ℤ → List ℕ
decimal (pos n) = digits 10 n
decimal (negsuc n) = b'-' ∷ digits 10 (n + 1)

-- The number that some digits stand for, behind those that stand for `n`.
unfoldable pub value : ℕ → List ℕ → ℕ
value n [] = n
value n (c ∷ cs) = value (n * 10 + (c - b'0')) cs

value-append : (n : ℕ) (cs : List ℕ) (c : ℕ) → value n (cs ++ c ∷ []) ≡ value n cs * 10 + (c - b'0')
unfolding value
value-append n [] c = refl
value-append n (d ∷ cs) c = value-append (n * 10 + (d - b'0')) cs c

-- The digits of a number stand for it.
pub value-digits : (fuel n : ℕ) → n < 10 ^ fuel → value 0 (digits fuel n) ≡ n
unfolding value digits
value-digits zero n below = omega arith
value-digits (suc fuel) n below =
    ground
      (arith, value-append 0 (digits fuel (n / 10)) (b'0' + n % 10), value-digits fuel (n / 10))

pub length-digits : (fuel n : ℕ) → length (digits fuel n) ≤ fuel
unfolding digits
length-digits zero n = omega arith
length-digits (suc fuel) n = ground (
  arith,
  length-append (digits fuel (n / 10)) ((b'0' + n % 10) ∷ []),
  length-digits fuel (n / 10),
)

pub length-decimal : (i : ℤ) → length (decimal i) ≤ 11
length-decimal (pos n) = omega (arith, length-digits 10 n)
length-decimal (negsuc n) = omega (arith, length-digits 10 (n + 1))

-- The character of a digit.
abbrev pub IsDigit : ℕ → Type 0
IsDigit c = (b'0' ≤ c) × (c ≤ b'9')

IsDigit-append : (xs : List ℕ) (c : ℕ) → All IsDigit xs → IsDigit c → All IsDigit (xs ++ c ∷ [])
IsDigit-append [] c h hc = (hc, tt)
IsDigit-append (x ∷ xs) c (hx, h) hc = (hx, IsDigit-append xs c h hc)

digits-IsDigit : (fuel n : ℕ) → All IsDigit (digits fuel n)
unfolding digits
digits-IsDigit zero n = tt
digits-IsDigit (suc fuel) n =
    let more : All IsDigit (digits fuel (n / 10) ++ (b'0' + n % 10) ∷ []) =
      IsDigit-append (digits fuel (n / 10)) (b'0' + n % 10) (digits-IsDigit fuel (n / 10))
        (omega arith, omega arith) in
    elim (Bool-cases (ltb n 10)) [
      | inl small ↦ rw small ((omega arith, omega (arith, ltb→lt n 10 small)), tt)
      | inr large ↦ rw large more
    ]

-- A text that begins with a digit other than 0, or another character.
abbrev pub BeginsNonzero : List ℕ → Type 0
BeginsNonzero [] = ⊥
BeginsNonzero (c ∷ cs) = c ≢ b'0'

BeginsNonzero-append : (xs ys : List ℕ) → BeginsNonzero xs → BeginsNonzero (xs ++ ys)
BeginsNonzero-append [] ys h = absurd h
BeginsNonzero-append (x ∷ xs) ys h = h

digits-BeginsNonzero : (fuel n : ℕ) → 0 < n → n < 10 ^ fuel → BeginsNonzero (digits fuel n)
unfolding digits
digits-BeginsNonzero zero n some_left below = absurd (omega arith)
digits-BeginsNonzero (suc fuel) n some_left below = elim (Bool-cases (ltb n 10)) [
  | inl small ↦ rw small (λ e. omega arith)
  | inr large ↦
      let many : 10 ≤ n = ground (arith, large) in
      rw large (
        BeginsNonzero-append (digits fuel (n / 10)) _
          (digits-BeginsNonzero fuel (n / 10) (omega arith) (omega arith)))
]

-- The decimal text of a number: digits that stand for it, and none in front of them is a 0 but that
-- of zero itself.
pub record IsDecimal (n : ℕ) (cs : List ℕ) : Type 0 where
  pub stands : value 0 cs ≡ n
  pub digit : All IsDigit cs
  pub shortest : (cs ≡ b'0' ∷ []) ⊎ BeginsNonzero cs

digits-shortest :
    (fuel n : ℕ)
    → 0 < fuel
    → n < 10 ^ fuel
    → (digits fuel n ≡ b'0' ∷ []) ⊎ BeginsNonzero (digits fuel n)
digits-shortest zero n h below = absurd (omega arith)
digits-shortest (suc fuel) zero h below = inl (unfold digits in refl)
digits-shortest (suc fuel) (suc n) h below =
    inr (digits-BeginsNonzero (suc fuel) (suc n) (omega arith) below)

pub digits-IsDecimal : (fuel n : ℕ) → 0 < fuel → n < 10 ^ fuel → IsDecimal n (digits fuel n)
digits-IsDecimal fuel n some_fuel below = record {
  stands = value-digits fuel n below;
  digit = digits-IsDigit fuel n;
  shortest = digits-shortest fuel n some_fuel below;
}

digits-nonzero : (fuel n : ℕ) → All (λ d. d ≢ 0) (digits fuel n)
digits-nonzero fuel n = nonzero (digits fuel n) (digits-IsDigit fuel n)
  where
    nonzero : (cs : List ℕ) → All IsDigit cs → All (λ d. d ≢ 0) cs
    nonzero [] h = tt
    nonzero (c ∷ cs) ((low, high), h) = ((λ e. omega arith), nonzero cs h)

-- Such a text has no zero byte.
pub decimal-nonzero : (i : ℤ) → All (λ d. d ≢ 0) (decimal i)
decimal-nonzero (pos n) = digits-nonzero 10 n
decimal-nonzero (negsuc n) = ((λ e. omega arith), digits-nonzero 10 (n + 1))
