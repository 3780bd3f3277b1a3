-- ===== src/Dns/Response/Skip.antt =====
-- The parts of `dns_parse_response` on what is known to stand at `ptr`.
use networking_programming.Base.{
  ℕ, zero, suc, ◌+◌, ◌-◌, ◌*◌, ◌/◌, ◌%◌, ◌<◌, ◌≡◌, ◌≢◌, ap, ◌∙◌, false, List, [], ◌∷◌, ◌++◌, length,
  arith, All, append_assoc, length-append, drop, replicate, ◌==◌,
}
use networking_programming.Memory.{Bytes, ok, splice, cstr}
use networking_programming.Memory.Text.{cstr-append}
use networking_programming.Memory.Laws.{splice-append}
use networking_programming.Memory.Window.{read-window, drop-window}
use networking_programming.Dns.Request.Tokens.{encode}
use networking_programming.Dns.Response.{net_short, skip_name, name_size}

pub net_short-window :
    (b : Bytes) (p high low : ℕ) {rest : Bytes}
    → drop p b ≡ high ∷ low ∷ rest
    → high < 256
    → low < 256
    → net_short b p ≡ ok (high * 256 + low)
unfolding net_short
net_short-window b p high low {rest} h hh hl =
    rw (read-window b p h, read-window b (p + 1) (drop-window b p (high ∷ []) (low ∷ rest) h))
      (ap ok swapped)
  where
    swapped : (high + low * 256) % 256 * 256 + (high + low * 256) / 256 % 256 ≡ high * 256 + low
    swapped = omega arith

-- The name of a question is passed over with its zero byte, in one round for each label and one
-- more.
pub skip_name-encode :
    (fuel : ℕ) (ls : List Bytes) (b : Bytes) (p : ℕ) (rest : Bytes)
    → length ls < fuel
    → All (λ l. (0 < length l) × (length l < 256)) ls
    → drop p b ≡ encode ls ++ 0 ∷ rest
    → skip_name fuel b p ≡ ok (p + length (encode ls) + 1)
unfolding encode skip_name
skip_name-encode zero ls b p rest few short h = absurd (omega arith)
skip_name-encode (suc fuel) [] b p rest few short h = rw (read-window b p h) (ap ok (omega arith))
skip_name-encode (suc fuel) (l ∷ ls) b p rest few (short, others) h =
    rw (read-window b p h, nonzero)
      (skip_name-encode fuel ls b (p + (length l % 256 + 1)) rest (omega arith) others behind
        ∙ ap ok (omega (arith, length-append l (encode ls))))
  where
    nonzero : (length l % 256 == 0) ≡ false
    nonzero = ground arith

    behind : drop (p + (length l % 256 + 1)) b ≡ encode ls ++ 0 ∷ rest
    behind =
        ap (λ n. drop n b) (omega arith)
        ∙ drop-window b p (length l % 256 ∷ l) (encode ls ++ 0 ∷ rest)
            (h ∙ append_assoc (length l % 256 ∷ l) (encode ls) (0 ∷ rest))

drop-replicate : (k n : ℕ) → k < n → drop {A = ℕ} k (replicate n 0) ≡ 0 ∷ replicate (n - k - 1) 0
drop-replicate k zero h = absurd (omega arith)
drop-replicate zero (suc n) h = ap (λ m. 0 ∷ replicate m 0) (omega arith)
drop-replicate (suc k) (suc n) h =
    drop-replicate k n (omega arith) ∙ ap (λ m. 0 ∷ replicate m 0) (omega arith)

-- A text shorter than the zeroed array reads back from it as a C string.
pub cstr-splice :
    (s : Bytes)
    → length s < name_size
    → All (λ c. c ≢ 0) s
    → cstr (splice (replicate name_size 0) 0 s) ≡ ok s
cstr-splice s short h =
    ap cstr (splice-append (replicate name_size 0) 0 s (omega arith) ∙ ap (λ b. s ++ b) zeros)
    ∙ cstr-append s _ h
  where
    start : 0 + length s ≡ length s
    start = omega arith

    zeros :
        drop {A = ℕ} (0 + length s) (replicate name_size 0) ≡ 0 ∷ replicate (128 - length s - 1) 0
    zeros =
        ap (λ k. drop {A = ℕ} k (replicate name_size 0)) start ∙ drop-replicate (length s) 128 short
