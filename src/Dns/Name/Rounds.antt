-- ===== src/Dns/Name/Rounds.antt =====
-- One round of the loop of `dns_parse_name`, by what stands at `ptr`.
use networking_programming.Base.{
  ℕ, suc, ◌+◌, ◌<◌, ◌≡◌, ◌≢◌, ap, ◌∙◌, true, false, [], ◌∷◌, length, arith, length-take,
  length-drop, ◌==◌,
}
use networking_programming.Memory.{Bytes, ok, ◌>>=◌, read, slice, patch}
use networking_programming.Memory.Laws.{slice-inv}
use networking_programming.Dns.Name.{is_pointer, dot, name_loop}
use networking_programming.Dns.Name.Spells.{Spells, end, jump, last, more, rounds}

pub length-slice : (b : Bytes) (i n : ℕ) {xs : Bytes} → slice b i n ≡ ok xs → length xs ≡ n
length-slice b i n h =
    let (fits, e) = slice-inv b i n h in
    ap length e ∙ length-take n _ (omega (arith, length-drop i b))

pub ==-false : {n : ℕ} → n ≢ 0 → (n == 0) ≡ false
==-false {n} h = ground arith

pub ne_of_== : {n : ℕ} → (n == 0) ≡ false → n ≢ 0
ne_of_== {n} h = ground arith

pub rounds_pos : {chunk : Bytes} {ptr : ℕ} {text : Bytes} (s : Spells chunk ptr text) → 0 < rounds s
unfolding rounds
rounds_pos (end e) = omega arith
rounds_pos (jump a b c d s) = omega arith
rounds_pos (last a b c d e) = omega arith
rounds_pos (more a b c d e f s) = omega arith

-- One round of the loop, by what stands at `ptr`.
module _ (chunk : Bytes) (fuel ptr pos : ℕ) (out : Bytes) (len : ℕ) where
  pub loop_stop : read chunk ptr ≡ ok 0 → name_loop (suc fuel) chunk ptr pos out len ≡ ok (out, len)
  unfolding name_loop
  loop_stop r = rw r

  pub loop_jump :
      {flag n : ℕ}
      → read chunk ptr ≡ ok flag
      → flag ≢ 0
      → is_pointer flag ≡ true
      → read chunk (ptr + 1) ≡ ok n
      → name_loop (suc fuel) chunk ptr pos out len ≡ name_loop fuel chunk n len out len
  unfolding name_loop
  loop_jump r nz p q = rw (r, ==-false nz, p, q)

  pub loop_last :
      {flag : ℕ} {label : Bytes}
      → read chunk ptr ≡ ok flag
      → flag ≢ 0
      → is_pointer flag ≡ false
      → slice chunk (ptr + 1) flag ≡ ok label
      → read chunk (ptr + 1 + flag) ≡ ok 0
      → name_loop (suc fuel) chunk ptr pos out len ≡ (
          patch out pos label >>= λ copied.
          name_loop fuel chunk (ptr + 1 + flag) (pos + flag) copied (len + flag))
  unfolding name_loop
  loop_last r nz p sl nx = rw (r, ==-false nz, p, sl, nx)

  pub loop_more :
      {flag next : ℕ} {label : Bytes}
      → read chunk ptr ≡ ok flag
      → flag ≢ 0
      → is_pointer flag ≡ false
      → slice chunk (ptr + 1) flag ≡ ok label
      → read chunk (ptr + 1 + flag) ≡ ok next
      → next ≢ 0
      → name_loop (suc fuel) chunk ptr pos out len ≡ (
          patch out pos label >>= λ copied. patch copied (pos + flag) (dot ∷ []) >>= λ dotted.
          name_loop fuel chunk (ptr + 1 + flag) (pos + (flag + 1)) dotted (len + (flag + 1)))
  unfolding name_loop
  loop_more r nz p sl nx nn = rw (r, ==-false nz, p, sl, nx, ==-false nn)
