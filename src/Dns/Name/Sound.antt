-- ===== src/Dns/Name/Sound.antt =====
-- From what `dns_parse_name` writes to what the name spells.
use networking_programming.Base.{
  ℕ, zero, suc, ◌+◌, ◌≡◌, ◌≢◌, sym, ap, ◌∙◌, true, false, [], ◌∷◌, ◌++◌, length, arith,
  append_assoc, length-append, Bool-cases, inl, inr, ◌==◌, ==_iff,
}
use networking_programming.Memory.{Bytes, Outcome, ok, read, slice, patch, splice}
use networking_programming.Memory.Laws.{patch-inv, splice-splice, splice-nil, >>=-eq-ok}
use networking_programming.Dns.Name.{is_pointer, dot, name_loop, parse_name}
use networking_programming.Dns.Name.Spells.{Spells, end, jump, last, more}
use networking_programming.Dns.Name.Rounds.{length-slice, ne_of_==, loop_stop}

module _ (chunk : Bytes) where
  record Wrote (ptr : ℕ) (out : Bytes) (len : ℕ) (out' : Bytes) (len' : ℕ) : Type 0 where
    text : Bytes
    spelt : Spells chunk ptr text
    bytes : out' ≡ splice out len text
    count : len' ≡ len + length text

  ok-injective :
      {out out' : Bytes} {len len' : ℕ}
      → ◌≡◌ {A = Outcome (Bytes × ℕ)} (ok (out, len)) (ok (out', len'))
      → (out' ≡ out) × (len' ≡ len)
  ok-injective h = ground arith

  stop_sound :
      (fuel ptr pos : ℕ) (out : Bytes) (len : ℕ) {out' : Bytes} {len' : ℕ}
      → read chunk ptr ≡ ok 0
      → name_loop fuel chunk ptr pos out len ≡ ok (out', len')
      → (out' ≡ out) × (len' ≡ len)
  stop_sound zero ptr pos out len r h = absurd (never h)
    where
      never : {v : Bytes × ℕ} → name_loop zero chunk ptr pos out len ≡ ok v → ⊥
      never e = (unfold name_loop in cc)
  stop_sound (suc fuel) ptr pos out len r h =
      ok-injective (sym (loop_stop chunk fuel ptr pos out len r) ∙ h)

  -- The hypothesis of the induction: a call on less fuel writes what the name spells.
  abbrev Sound : ℕ → Type 0
  Sound fuel =
      (ptr : ℕ) (out : Bytes) (len : ℕ) (out' : Bytes) (len' : ℕ)
      → name_loop fuel chunk ptr len out len ≡ ok (out', len')
      → Wrote ptr out len out' len'

  module _ (fuel : ℕ) (ih : Sound fuel) (ptr : ℕ) (out : Bytes) (len flag : ℕ) where
    stop_case :
        (out' : Bytes) (len' : ℕ)
        → read chunk ptr ≡ ok 0
        → ◌≡◌ {A = Outcome (Bytes × ℕ)} (ok (out, len)) (ok (out', len'))
        → Wrote ptr out len out' len'
    stop_case out' len' r h =
        let (e, n) = ok-injective h in
        record {
          text = [];
          spelt = end r;
          bytes = e ∙ sym (splice-nil out len);
          count = omega arith;
        }

    jump_case :
        (n : ℕ) (out' : Bytes) (len' : ℕ)
        → read chunk ptr ≡ ok flag
        → flag ≢ 0
        → is_pointer flag ≡ true
        → read chunk (ptr + 1) ≡ ok n
        → name_loop fuel chunk n len out len ≡ ok (out', len')
        → Wrote ptr out len out' len'
    jump_case n out' len' r nz p q h =
        let w = ih n out len out' len' h in
        record { text = w.text; spelt = jump r nz p q w.spelt; bytes = w.bytes; count = w.count }

    last_case :
        (label copied out' : Bytes) (len' : ℕ)
        → read chunk ptr ≡ ok flag
        → flag ≢ 0
        → is_pointer flag ≡ false
        → slice chunk (ptr + 1) flag ≡ ok label
        → read chunk (ptr + 1 + flag) ≡ ok 0
        → patch out len label ≡ ok copied
        → name_loop fuel chunk (ptr + 1 + flag) (len + flag) copied (len + flag) ≡ ok (out', len')
        → Wrote ptr out len out' len'
    last_case label copied out' len' r nz p sl nx pa h =
        let (e, n) = stop_sound fuel (ptr + 1 + flag) (len + flag) copied (len + flag) nx h in
        record {
          text = label;
          spelt = last r nz p sl nx;
          bytes = e ∙ (patch-inv out len label pa).1;
          count = omega (arith, length-slice chunk (ptr + 1) flag sl);
        }

    more_case :
        (next : ℕ) (label copied dotted out' : Bytes) (len' : ℕ)
        → read chunk ptr ≡ ok flag
        → flag ≢ 0
        → is_pointer flag ≡ false
        → slice chunk (ptr + 1) flag ≡ ok label
        → read chunk (ptr + 1 + flag) ≡ ok next
        → next ≢ 0
        → patch out len label ≡ ok copied
        → patch copied (len + flag) (dot ∷ []) ≡ ok dotted
        → name_loop fuel chunk (ptr + 1 + flag) (len + (flag + 1)) dotted (len + (flag + 1))
          ≡ ok (out', len')
        → Wrote ptr out len out' len'
    more_case next label copied dotted out' len' r nz p sl nx nn pa pb h =
        let w = ih (ptr + 1 + flag) dotted (len + (flag + 1)) out' len' h in
        record {
          text = label ++ dot ∷ w.text;
          spelt = more r nz p sl nx nn w.spelt;
          bytes = w.bytes ∙ ap (λ b. splice b (len + (flag + 1)) w.text) second ∙ joined w.text;
          count = omega (arith, w.count, size, length-append label (dot ∷ w.text));
        }
      where
        size : length label ≡ flag
        size = length-slice chunk (ptr + 1) flag sl

        second : dotted ≡ splice out len (label ++ dot ∷ [])
        second =
            (patch-inv copied (len + flag) (dot ∷ []) pb).1
            ∙ ap (λ b. splice b (len + flag) (dot ∷ [])) (patch-inv out len label pa).1
            ∙ ap (λ n. splice (splice out len label) (len + n) (dot ∷ [])) (sym size)
            ∙ splice-splice out len label (dot ∷ [])

        joined :
            (text : Bytes)
            → splice (splice out len (label ++ dot ∷ [])) (len + (flag + 1)) text
              ≡ splice out len (label ++ dot ∷ text)
        joined text =
            ap (λ i. splice (splice out len (label ++ dot ∷ [])) i text)
              (omega (arith, size, length-append label (dot ∷ [])))
            ∙ splice-splice out len (label ++ dot ∷ []) text
            ∙ ap (splice out len) (append_assoc label (dot ∷ []) text)

    label_case :
        (out' : Bytes) (len' : ℕ)
        → name_loop (suc fuel) chunk ptr len out len ≡ ok (out', len')
        → read chunk ptr ≡ ok flag
        → (flag == 0) ≡ false
        → is_pointer flag ≡ false
        → Wrote ptr out len out' len'
    unfolding name_loop
    label_case out' len' h r nz p =
        let (label, sl, h2) = >>=-eq-ok (slice chunk (ptr + 1) flag) _ (rw (r, nz, p) at h) in
        let (copied, pa, h3) = >>=-eq-ok (patch out len label) _ h2 in
        let (next, nx, h4) = >>=-eq-ok (read chunk (ptr + 1 + flag)) _ h3 in
        elim (Bool-cases (next == 0)) [
          | inl z ↦
              last_case label copied out' len' r (ne_of_== nz) p sl
                (nx ∙ ap ok ((==_iff next 0).0 z)) pa (rw z at h4)
          | inr z ↦
              let (dotted, pb, h5) =
                >>=-eq-ok (patch copied (len + flag) (dot ∷ [])) _ (rw z at h4) in
              more_case next label copied dotted out' len' r (ne_of_== nz) p sl nx (ne_of_== z) pa
                pb h5
        ]

    round_sound :
        (out' : Bytes) (len' : ℕ)
        → name_loop (suc fuel) chunk ptr len out len ≡ ok (out', len')
        → read chunk ptr ≡ ok flag
        → Wrote ptr out len out' len'
    unfolding name_loop
    round_sound out' len' h r = elim (Bool-cases (flag == 0)) [
      | inl z ↦ stop_case out' len' (r ∙ ap ok ((==_iff flag 0).0 z)) (rw (r, z) at h)
      | inr nz ↦ elim (Bool-cases (is_pointer flag)) [
        | inl p ↦
            let (n, q, h2) = >>=-eq-ok (read chunk (ptr + 1)) _ (rw (r, nz, p) at h) in
            jump_case n out' len' r (ne_of_== nz) p q h2
        | inr p ↦ label_case out' len' h r nz p
      ]
    ]

  loop-Sound : (fuel : ℕ) → Sound fuel
  unfolding name_loop
  loop-Sound zero ptr out len out' len' h = cc
  loop-Sound (suc fuel) ptr out len out' len' h =
      let found = >>=-eq-ok (read chunk ptr) _ h in
      round_sound fuel (loop-Sound fuel) ptr out len found.0 out' len' h found.1

  -- Whenever `dns_parse_name` returns, the name at `ptr` spells some text, `out` has become `out`
  -- with that text written at `*len`, and `*len` has grown by the length of the text.
  pub parse_name_sound :
      (fuel ptr : ℕ) (out : Bytes) (len : ℕ) {out' : Bytes} {len' : ℕ}
      → parse_name fuel chunk ptr out len ≡ ok (out', len')
      → (text : Bytes) × Spells chunk ptr text
        × (out' ≡ splice out len text)
        × (len' ≡ len + length text)
  unfolding parse_name
  parse_name_sound fuel ptr out len {out'} {len'} h =
      let w = loop-Sound fuel ptr out len out' len' h in (w.text, w.spelt, w.bytes, w.count)
