-- ===== src/Memory.antt =====
-- C memory as the program uses it: arrays of bytes, reads and writes that are undefined behaviour
-- outside an array, and the outcome of a run. Proofs about these are in Memory/Laws and
-- Memory/Window, and Memory/Agree compares outcomes;
-- Memory/Post is about postconditions, Memory/Text
-- about texts that are written into an array and sent.
pub mod Laws
pub mod Agree
pub mod Post
pub mod Window
pub mod Text
use networking_programming.Base.Int.{ℤ, pos, negsuc}
use networking_programming.Base.{
  ℕ, zero, suc, ◌+◌, ◌≡◌, List, [], ◌∷◌, Option, none, some, length, get_elem?, take, drop, leb,
  if◌then◌else◌, ◌==◌,
}

abbrev pub Bytes : Type 0
Bytes = List ℕ

-- `fault` is undefined behaviour (an access outside an array, a null pointer); `timeout` is fuel
-- that ran out.
pub data Outcome {ℓ} (A : Type ℓ) : Type ℓ where
  fault timeout : Outcome A
  ok : A → Outcome A

infixl 5 ◌>>=◌
-- The rest of a run, unless it ended.
abbrev pub ◌>>=◌ {ℓ κ} : {A : Type ℓ} {B : Type κ} → Outcome A → (A → Outcome B) → Outcome B
fault >>= next = fault
timeout >>= next = timeout
ok result >>= next = next result

-- The postcondition of a run, which says nothing if it is undefined.
abbrev pub IfOk {κ} : {A : Type 0} → (A → Type κ) → Outcome A → Type κ
IfOk P (ok a) = P a
IfOk P fault = Unit
IfOk P timeout = Unit

-- What an access that may fall outside its array gives.
abbrev pub of_option {ℓ} : {A : Type ℓ} → Option A → Outcome A
of_option (some a) = ok a
of_option none = fault

-- `b[i]`
unfoldable pub read : Bytes → ℕ → Outcome ℕ
read b i = of_option (get_elem? b i)

-- The `n` bytes from `b + i` on, as `memcpy` reads them.
unfoldable pub slice : Bytes → ℕ → ℕ → Outcome Bytes
slice b i n = if leb (i + n) (length b) then ok (take n (drop i b)) else fault

-- The array `b` with `xs` written over its beginning.
unfoldable pub overwrite : Bytes → Bytes → Bytes
overwrite b [] = b
overwrite [] (x ∷ xs) = []
overwrite (c ∷ b) (x ∷ xs) = x ∷ overwrite b xs

-- The array `b` with `xs` written from index `i` on.
unfoldable pub splice : Bytes → ℕ → Bytes → Bytes
unfolding overwrite
splice b zero xs = overwrite b xs
splice [] (suc i) xs = []
splice (c ∷ b) (suc i) xs = c ∷ splice b i xs

-- `memcpy(b + i, xs, n)` for the `n` bytes of `xs`.
unfoldable pub patch : Bytes → ℕ → Bytes → Outcome Bytes
patch b i xs = if leb (i + length xs) (length b) then ok (splice b i xs) else fault

-- The characters of a C string before its NUL; to look for it past the array is undefined.
unfoldable pub cstr : Bytes → Outcome Bytes
cstr [] = fault
cstr (c ∷ b) = let rest = cstr b >>= λ s. ok (c ∷ s) in if c == 0 then ok [] else rest

-- The number of bytes that an `int` asks for as a `size_t`: a negative one is more than any array
-- holds.
abbrev pub as_size : ℤ → Outcome ℕ
as_size (pos n) = ok n
as_size (negsuc n) = fault
