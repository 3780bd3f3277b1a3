-- ===== src/Dns/Name/Complete.antt =====
-- From what a name spells to what `dns_parse_name` writes.
use networking_programming.Base.{
  ℕ, zero, suc, ◌+◌, ◌≤◌, ◌≡◌, sym, ap, ◌∙◌, [], ◌∷◌, ◌++◌, length, arith, append_assoc,
  length-append,
}
use networking_programming.Memory.{Bytes, ok, splice}
use networking_programming.Memory.Laws.{
  patch-ok, patch-patch, length-splice, splice-splice, splice-nil,
}
use networking_programming.Dns.Name.{dot, name_loop, parse_name}
use networking_programming.Dns.Name.Spells.{Spells, end, jump, last, more, rounds}
use networking_programming.Dns.Name.Rounds.{
  length-slice, rounds_pos, loop_stop, loop_jump, loop_last, loop_more,
}

module _ (chunk : Bytes) where
  loop_complete :
      (fuel : ℕ) {ptr : ℕ} {text : Bytes} (s : Spells chunk ptr text) (out : Bytes) (len : ℕ)
      → rounds s ≤ fuel
      → len + length text ≤ length out
      → name_loop fuel chunk ptr len out len ≡ ok (splice out len text, len + length text)
  unfolding rounds
  loop_complete zero s out len h room = absurd (omega (arith, rounds_pos s))
  loop_complete (suc fuel) {ptr = ptr} (end e) out len h room =
      loop_stop chunk fuel ptr len out len e
      ∙ ap (λ n. ok (out, n)) (omega arith)
      ∙ ap (λ b. ok (b, len + 0)) (sym (splice-nil out len))
  loop_complete (suc fuel) {ptr = ptr} (jump {n = n} r nz p q s) out len h room =
      loop_jump chunk fuel ptr len out len r nz p q
      ∙ loop_complete fuel {ptr = n} s out len (omega arith) room
  loop_complete (suc zero) (last r nz p sl nx) out len h room = absurd (omega arith)
  loop_complete (suc (suc fuel)) {ptr = ptr} {text = text} (last {flag = flag} r nz p sl nx) out len
        h room =
      loop_last chunk (suc fuel) ptr len out len r nz p sl nx
      ∙ rw (patch-ok out len text room) (
          loop_stop chunk fuel (ptr + 1 + flag) (len + flag) (splice out len text) (len + flag) nx
          ∙ ap (λ n. ok (splice out len text, len + n))
              (sym (length-slice chunk (ptr + 1) flag sl)))
  loop_complete (suc fuel) {ptr = ptr}
        (more {flag = flag} {label = label} {text = text} r nz p sl nx nn s) out len h room =
      loop_more chunk fuel ptr len out len r nz p sl nx nn
      ∙ patch-patch out len (len + flag) label (dot ∷ []) _ (omega (arith, size))
      ∙ rw (patch-ok out len dotted (omega (arith, whole))) (
          loop_complete fuel {ptr = ptr + 1 + flag} s (splice out len dotted) (len + (flag + 1))
            (omega arith) (omega (arith, whole, length-splice out len dotted))
          ∙ (λ i. ok (joined i, total i)))
    where
      size : length label ≡ flag
      size = length-slice chunk (ptr + 1) flag sl

      dotted : Bytes
      dotted = label ++ dot ∷ []

      whole : (length dotted ≡ flag + 1) × (len + (flag + 1) + length text ≤ length out)
      whole = omega (arith, size, length-append label (dot ∷ []), length-append label (dot ∷ text))

      total : len + (flag + 1) + length text ≡ len + length (label ++ dot ∷ text)
      total = omega (arith, size, length-append label (dot ∷ text))

      joined :
          splice (splice out len dotted) (len + (flag + 1)) text
          ≡ splice out len (label ++ dot ∷ text)
      joined =
          ap (λ i. splice (splice out len dotted) i text) (omega (arith, whole))
          ∙ splice-splice out len dotted text
          ∙ ap (splice out len) (append_assoc label (dot ∷ []) text)

  -- If the name at `ptr` spells a text, the text has room in `out` behind `*len`, and the fuel is
  -- at least the number of rounds that the name takes, `dns_parse_name` returns, with the text
  -- written at `*len` and `*len` grown by its length.
  pub parse_name_complete :
      {ptr : ℕ} {text : Bytes} (s : Spells chunk ptr text) (fuel : ℕ) (out : Bytes) (len : ℕ)
      → rounds s ≤ fuel
      → len + length text ≤ length out
      → parse_name fuel chunk ptr out len ≡ ok (splice out len text, len + length text)
  unfolding parse_name
  parse_name_complete s fuel out len = loop_complete fuel s out len
