-- ===== src/Dns/Name/Loops.antt =====
-- Names that point to themselves.
use networking_programming.Base.{ℕ, zero, suc, ◌+◌, ◌≡◌, ◌≢◌, refl, ◌∙◌, true}
use networking_programming.Memory.{Bytes, timeout, ok, read}
use networking_programming.Dns.Name.{is_pointer, name_loop, parse_name}
use networking_programming.Dns.Name.Rounds.{loop_jump}

module _ (chunk : Bytes) {ptr flag : ℕ} (byte : read chunk ptr ≡ ok flag) (set : flag ≢ 0)
    (pointer : is_pointer flag ≡ true) (self : read chunk (ptr + 1) ≡ ok ptr) where
  self_pointer_loop :
      (fuel pos : ℕ) (out : Bytes) (len : ℕ) → name_loop fuel chunk ptr pos out len ≡ timeout
  self_pointer_loop zero pos out len = (unfold name_loop in refl)
  self_pointer_loop (suc fuel) pos out len =
      loop_jump chunk fuel ptr pos out len byte set pointer self
      ∙ self_pointer_loop fuel len out len

  -- If the byte at `ptr` is a compression pointer and the byte behind it is `ptr` itself, no
  -- amount of fuel makes `dns_parse_name` return.
  pub parse_name_self_pointer :
      (fuel : ℕ) (out : Bytes) (len : ℕ) → parse_name fuel chunk ptr out len ≡ timeout
  unfolding parse_name
  parse_name_self_pointer fuel out len = self_pointer_loop fuel len out len
