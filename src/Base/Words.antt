-- ===== src/Base/Words.antt =====
-- Byte order, on a host that keeps the low byte of a word first.
use networking_programming.Base.{ℕ, ◌+◌, ◌*◌, ◌/◌, ◌%◌, ◌^◌, ◌<◌, ◌≡◌, arith}

-- `htons` and `ntohs`: the two bytes of a 16-bit word change places.
unfoldable pub htons : ℕ → ℕ
htons v = v % 256 * 256 + v / 256 % 256

pub htons-htons : (v : ℕ) → v < 2 ^ 16 → htons (htons v) ≡ v
unfolding htons
htons-htons v h = omega arith

pub htons-lt : (v : ℕ) → htons v < 2 ^ 16
unfolding htons
htons-lt v = omega arith
