-- ===== src/Net/Systems.antt =====
-- Two systems that meet what is documented: one on which every call succeeds and `recv` gives one
-- byte, and one on which every `recv` fails.
use networking_programming.Base.{
  ℕ, ◌≤◌, ◌≡◌, refl, ap, [], ◌∷◌, length, arith, ◌==◌, if◌then◌else◌, Bool-cases, inl, inr,
}
use networking_programming.Base.Int.{ℤ, pos, negsuc, pos_part}
use networking_programming.Memory.{Bytes}
use networking_programming.Net.{Os, OsLaws}

abbrev one_byte : ℕ → ℤ × Bytes × Unit {0}
one_byte n = if n == 0 then (pos 0, [], tt) else (pos 1, b'A' ∷ [], tt)

abbrev pub working : Os
working = record {
  World = Unit {0};
  accept = λ fd w. (pos 7, w);
  recv = λ fd n w. one_byte n;
  send = λ fd bytes w. (pos (length bytes), w);
  epoll_ctl = λ op fd event w. (pos 0, w);
  close = λ fd w. w;
}

one_byte_count : (n k : ℕ) → (one_byte n).0 ≡ pos k → (length (one_byte n).1 ≡ k) × (k ≤ n)
one_byte_count n k e = elim (Bool-cases (n == 0)) [
  | inl z ↦ rw z (ground (arith, (rw z at e)))
  | inr z ↦ rw z (ground (arith, (rw z at e)))
]

one_byte_alive : (n k : ℕ) → (one_byte n).0 ≡ negsuc k → ⊥
one_byte_alive n k e = elim (Bool-cases (n == 0)) [
  | inl z ↦ cc (rw z at e)
  | inr z ↦ cc (rw z at e)
]

pub working-OsLaws : OsLaws working
working-OsLaws = record {
  recv_count = λ fd n w k e. one_byte_count n k e;
  recv_failure = λ fd n w k e. absurd (one_byte_alive n k e);
}

pub working_alive : (fd n : ℕ) (w : Unit {0}) (k : ℕ) → (working.recv fd n w).0 ≡ negsuc k → ⊥
working_alive fd n w k e = one_byte_alive n k e

pub working_short : (fd : ℕ) (w : Unit {0}) → (working.recv fd 128 w).0 ≡ pos 128 → ⊥
working_short fd w e = omega (arith, ap pos_part e)

abbrev pub broken : Os
broken = record {
  World = Unit {0};
  accept = λ fd w. (negsuc 0, w);
  recv = λ fd n w. (negsuc 0, [], w);
  send = λ fd bytes w. (negsuc 0, w);
  epoll_ctl = λ op fd event w. (negsuc 0, w);
  close = λ fd w. w;
}

pub broken-OsLaws : OsLaws broken
broken-OsLaws = record {
  recv_count = λ fd n w k e. absurd (no_count k e);
  recv_failure = λ fd n w k e. refl;
}
  where
    no_count : (k : ℕ) → negsuc 0 ≡ pos k → ⊥
    no_count k e = cc
