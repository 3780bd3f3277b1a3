-- ===== src/Memory/Laws.antt =====
-- Laws of writing into an array.
use networking_programming.Base.{
  ℕ, zero, suc, ◌+◌, ◌≤◌, ◌<◌, ◌≡◌, refl, ap, sym, ◌∙◌, [], ◌∷◌, ◌++◌, length, take, drop, arith,
  append-nil, length-append, take-length-append,
}
use native.Mathlib.Decide.{dec_le}
use networking_programming.Memory.{
  Bytes, Outcome, ok, fault, timeout, ◌>>=◌, overwrite, splice, patch, slice,
}

pub length-overwrite : (b xs : Bytes) → length (overwrite b xs) ≡ length b
unfolding overwrite
length-overwrite b [] = refl
length-overwrite [] (x ∷ xs) = refl
length-overwrite (c ∷ b) (x ∷ xs) = ap suc (length-overwrite b xs)

pub length-splice : (b : Bytes) (i : ℕ) (xs : Bytes) → length (splice b i xs) ≡ length b
unfolding splice
length-splice b zero xs = length-overwrite b xs
length-splice [] (suc i) xs = refl
length-splice (c ∷ b) (suc i) xs = ap suc (length-splice b i xs)

splice-overwrite :
    (b xs ys : Bytes) → splice (overwrite b xs) (length xs) ys ≡ overwrite b (xs ++ ys)
unfolding splice
splice-overwrite b [] ys = refl
splice-overwrite [] (x ∷ xs) ys = refl
splice-overwrite (c ∷ b) (x ∷ xs) ys = ap (λ l. x ∷ l) (splice-overwrite b xs ys)

-- A write right behind a write is one write.
pub splice-splice :
    (b : Bytes) (i : ℕ) (xs ys : Bytes)
    → splice (splice b i xs) (i + length xs) ys ≡ splice b i (xs ++ ys)
unfolding splice
splice-splice b zero xs ys =
    let e : 0 + length xs ≡ length xs = omega arith in rw e (splice-overwrite b xs ys)
splice-splice [] (suc i) xs ys =
    let e : suc i + length xs ≡ suc (i + length xs) = omega arith in rw e
splice-splice (c ∷ b) (suc i) xs ys =
    let e : suc i + length xs ≡ suc (i + length xs) = omega arith in
    rw e (ap (λ l. c ∷ l) (splice-splice b i xs ys))

overwrite-append : (b xs : Bytes) → length xs ≤ length b → overwrite b xs ≡ xs ++ drop (length xs) b
unfolding overwrite
overwrite-append b [] h = refl
overwrite-append [] (x ∷ xs) h = absurd (omega arith)
overwrite-append (c ∷ b) (x ∷ xs) h = ap (λ l. x ∷ l) (overwrite-append b xs (omega arith))

-- A write within the array splits it into what stood before, what was written, and what is left.
pub splice-append :
    (b : Bytes) (i : ℕ) (xs : Bytes)
    → i + length xs ≤ length b
    → splice b i xs ≡ take i b ++ xs ++ drop (i + length xs) b
unfolding splice
splice-append b zero xs h =
    let e : 0 + length xs ≡ length xs = omega arith in rw e (overwrite-append b xs (omega arith))
splice-append [] (suc i) xs h = absurd (omega arith)
splice-append (c ∷ b) (suc i) xs h =
    let e : suc i + length xs ≡ suc (i + length xs) = omega arith in
    rw e (ap (λ l. c ∷ l) (splice-append b i xs (omega arith)))

pub patch-ok :
    (b : Bytes) (i : ℕ) (xs : Bytes) → i + length xs ≤ length b → patch b i xs ≡ ok (splice b i xs)
unfolding patch
patch-ok b i xs h = ground arith

pub patch-fault : (b : Bytes) (i : ℕ) (xs : Bytes) → length b < i + length xs → patch b i xs ≡ fault
unfolding patch
patch-fault b i xs h = ground arith

-- A write that is defined lies inside the array.
pub patch-inv :
    (b : Bytes) (i : ℕ) (xs : Bytes) {b' : Bytes}
    → patch b i xs ≡ ok b'
    → (i + length xs ≤ length b) × (b' ≡ splice b i xs)
unfolding patch
patch-inv b i xs h = ground arith

pub slice-ok : (b : Bytes) (i n : ℕ) → i + n ≤ length b → slice b i n ≡ ok (take n (drop i b))
unfolding slice
slice-ok b i n h = ground arith

pub slice-inv :
    (b : Bytes) (i n : ℕ) {xs : Bytes}
    → slice b i n ≡ ok xs
    → (i + n ≤ length b) × (xs ≡ take n (drop i b))
unfolding slice
slice-inv b i n h = ground arith

-- Inversion of a bind that succeeds.
pub >>=-eq-ok {ℓ κ} :
    {A : Type ℓ} {B : Type κ} (first : Outcome A) (next : A → Outcome B) {result : B}
    → (first >>= next) ≡ ok result
    → (a : A) × (first ≡ ok a) × (next a ≡ ok result)
>>=-eq-ok fault next ends = cc
>>=-eq-ok timeout next ends = cc
>>=-eq-ok (ok a) next ends = (a, refl, ends)

overwrite-overwrite :
    (b xs ys : Bytes) → length xs ≤ length ys → overwrite (overwrite b xs) ys ≡ overwrite b ys
unfolding overwrite
overwrite-overwrite b [] ys h = refl
overwrite-overwrite b (x ∷ xs) [] h = absurd (omega arith)
overwrite-overwrite [] (x ∷ xs) (y ∷ ys) h = refl
overwrite-overwrite (c ∷ b) (x ∷ xs) (y ∷ ys) h =
    ap (λ l. y ∷ l) (overwrite-overwrite b xs ys (omega arith))

-- A later write that covers an earlier one at the same place replaces it.
pub splice_covers :
    (b : Bytes) (i : ℕ) (xs ys : Bytes)
    → length xs ≤ length ys
    → splice (splice b i xs) i ys ≡ splice b i ys
unfolding splice
splice_covers b zero xs ys h = overwrite-overwrite b xs ys h
splice_covers [] (suc i) xs ys h = refl
splice_covers (c ∷ b) (suc i) xs ys h = ap (λ l. c ∷ l) (splice_covers b i xs ys h)

drop_all : (b : Bytes) (n : ℕ) → length b ≤ n → drop n b ≡ []
drop_all [] zero h = refl
drop_all [] (suc n) h = refl
drop_all (c ∷ b) zero h = absurd (omega arith)
drop_all (c ∷ b) (suc n) h = drop_all b n (omega arith)

-- Writing a whole array replaces it.
pub splice_whole : (b xs : Bytes) → length xs ≡ length b → splice b 0 xs ≡ xs
unfolding splice
splice_whole b xs h =
    overwrite-append b xs (omega arith)
    ∙ ap (λ l. xs ++ l) (drop_all b (length xs) (omega arith))
    ∙ append-nil xs

-- A write that begins inside an earlier one and covers its end.
pub splice_tail :
    (b : Bytes) (i : ℕ) (xs zs ys : Bytes)
    → length zs ≤ length ys
    → splice (splice b i (xs ++ zs)) (i + length xs) ys ≡ splice b i (xs ++ ys)
splice_tail b i xs zs ys h =
    ap (λ c. splice c (i + length xs) ys) (sym (splice-splice b i xs zs))
    ∙ splice_covers (splice b i xs) (i + length xs) zs ys h
    ∙ splice-splice b i xs ys

-- Two copies, the second right behind the first, are one copy; both are undefined together.
pub patch-patch {ℓ} :
    {B : Type ℓ} (b : Bytes) (i j : ℕ) (xs ys : Bytes) (k : Bytes → Outcome B)
    → j ≡ i + length xs
    → (patch b i xs >>= λ c. patch c j ys >>= k) ≡ (patch b i (xs ++ ys) >>= k)
patch-patch b i j xs ys k e = elim (dec_le (i + length xs + length ys) (length b)) [
  | yes fits ↦ rw (
    e,
    patch-ok b i xs (omega arith),
    patch-ok (splice b i xs) (i + length xs) ys (omega (arith, length-splice b i xs)),
    patch-ok b i (xs ++ ys) (omega (arith, length-append xs ys)),
    splice-splice b i xs ys,
  )
  | no over ↦ elim (dec_le (i + length xs) (length b)) [
    | yes first ↦ rw (
      e,
      patch-ok b i xs first,
      patch-fault (splice b i xs) (i + length xs) ys (omega (arith, length-splice b i xs)),
      patch-fault b i (xs ++ ys) (omega (arith, length-append xs ys)),
    )
    | no late ↦ rw (
      patch-fault b i xs (omega arith),
      patch-fault b i (xs ++ ys) (omega (arith, length-append xs ys)),
    )
  ]
]

pub splice-nil : (b : Bytes) (i : ℕ) → splice b i [] ≡ b
unfolding splice
splice-nil b zero = refl
splice-nil [] (suc i) = refl
splice-nil (c ∷ b) (suc i) = ap (λ l. c ∷ l) (splice-nil b i)

-- What was written at the beginning of an array reads back.
pub take-splice : (b xs : Bytes) → length xs ≤ length b → take (length xs) (splice b 0 xs) ≡ xs
take-splice b xs h =
    ap (take (length xs)) (splice-append b 0 xs (omega arith))
    ∙ take-length-append xs (drop (0 + length xs) b)

pub slice-splice :
    (b xs : Bytes) {n : ℕ} → length xs ≡ n → n ≤ length b → slice (splice b 0 xs) 0 n ≡ ok xs
slice-splice b xs {n} e h =
    slice-ok (splice b 0 xs) 0 n (omega (arith, length-splice b 0 xs))
    ∙ ap ok (ap (λ m. take m (splice b 0 xs)) (sym e) ∙ take-splice b xs (omega arith))
