-- ===== src/Coroutine/Jump.antt =====
-- 2.3.1-Coroutine/setjmp.c: `setjmp` returns once for every `longjmp`, with a number that grows.
use networking_programming.Base.{
  ℕ, zero, suc, ◌+◌, ◌≤◌, ◌<◌, ◌≡◌, refl, List, [], ◌∷◌, leb, if◌then◌else◌, arith, le→leb,
}
use networking_programming.Memory.{Outcome, ok, timeout, ◌>>=◌}

-- `main` behind a `setjmp` that has returned `ret`, on fuel: the numbers that `func` prints.
unfoldable pub main_from : ℕ → ℕ → Outcome (List ℕ)
main_from zero ret = timeout
main_from (suc fuel) ret =
    let rest = main_from fuel (ret + 1) >>= λ printed. ok (ret ∷ printed) in
    if leb ret 3 then rest else ok []

-- That many numbers from one on.
unfoldable pub numbers : ℕ → ℕ → List ℕ
numbers zero n = []
numbers (suc count) n = n ∷ numbers count (n + 1)

main_from-numbers :
    (left fuel ret : ℕ) → ret + left ≡ 4 → left < fuel → main_from fuel ret ≡ ok (numbers left ret)
unfolding main_from numbers
main_from-numbers left zero ret e enough = absurd (omega arith)
main_from-numbers zero (suc fuel) ret e enough = ground arith
main_from-numbers (suc left) (suc fuel) ret e enough =
    rw
      (
        le→leb ret 3 (omega arith),
        main_from-numbers left fuel (ret + 1) (omega arith) (omega arith),
      )
      refl

-- The program ends, with 0, 1, 2 and 3 on the terminal.
pub main_ends : (fuel : ℕ) → 5 ≤ fuel → main_from fuel 0 ≡ ok (0 ∷ 1 ∷ 2 ∷ 3 ∷ [])
unfolding numbers
main_ends fuel enough = main_from-numbers 4 fuel 0 (omega arith) (omega arith)
