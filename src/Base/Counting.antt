-- ===== src/Base/Counting.antt =====
-- Families indexed by numbers, such as the threads of a program: a change at one index, and sums
-- over the indices below a bound.
use networking_programming.Base.{
  ℕ, zero, suc, ◌+◌, ◌≤◌, ◌<◌, ◌≡◌, refl, arith, ◌==◌, if◌then◌else◌, Bool-cases, inl, inr, ==_iff,
}

abbrev pub put {ℓ} : {A : Type ℓ} → (ℕ → A) → ℕ → A → ℕ → A
put f i a j = if i == j then a else f j

module _ {ℓ} {A : Type ℓ} (weight : A → ℕ) where
  unfoldable pub sum_below : ℕ → (ℕ → A) → ℕ
  sum_below zero f = 0
  sum_below (suc n) f = weight (f n) + sum_below n f

  pub sum_below-put_above :
      (n : ℕ) (f : ℕ → A) (i : ℕ) (a : A) → n ≤ i → sum_below n (put f i a) ≡ sum_below n f
  unfolding sum_below
  sum_below-put_above zero f i a above = refl
  sum_below-put_above (suc n) f i a above = ground (arith, sum_below-put_above n f i a)

  pub sum_below-put :
      (n : ℕ) (f : ℕ → A) (i : ℕ) (a : A)
      → i < n
      → sum_below n (put f i a) + weight (f i) ≡ sum_below n f + weight a
  unfolding sum_below
  sum_below-put zero f i a below = absurd (omega arith)
  sum_below-put (suc n) f i a below = elim (Bool-cases (i == n)) [
    | inl last ↦ ground (arith, sum_below-put_above n f i a, (==_iff i n).0 last)
    | inr before ↦ ground (arith, sum_below-put n f i a)
  ]

  -- A new index takes its weight to the sum.
  pub sum_below-put_next :
      (n : ℕ) (f : ℕ → A) (a : A) → sum_below (suc n) (put f n a) ≡ weight a + sum_below n f
  unfolding sum_below
  sum_below-put_next n f a = ground (arith, sum_below-put_above n f n a)
