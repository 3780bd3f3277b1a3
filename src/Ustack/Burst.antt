-- ===== src/Ustack/Burst.antt =====
-- What becomes of the buffers of a burst.
use networking_programming.Base.{
  ℕ, zero, suc, ◌+◌, ◌≤◌, ◌≡◌, sym, ap, ◌∙◌, Option, none, some, List, [], ◌∷◌, ◌++◌, length, arith,
  if◌then◌else◌, length-append, Bool-cases, Option-cases, ltb, inl, inr, append-nil, append_assoc,
}
use networking_programming.Memory.{Bytes, Outcome, ok}
use networking_programming.Memory.Laws.{>>=-eq-ok}
use networking_programming.Ustack.{
  Frame, Port, Ipv4Hdr, UdpHdr, Mbuf, is_udp, answer, send, round, rounds, burst, learn,
}

-- The positions of the UDP frames of a burst that begins at index `i`.
unfoldable pub udp_indices : ℕ → List Frame → List ℕ
udp_indices i [] = []
udp_indices i (f ∷ fs) = (if is_udp f then i ∷ [] else []) ++ udp_indices (i + 1) fs

-- The `k` positions from `n` on.
unfoldable pub positions : ℕ → ℕ → List ℕ
positions zero n = []
positions (suc k) n = n ∷ positions k (n + 1)

positions_add : (j k n : ℕ) → positions (j + k) n ≡ positions j n ++ positions k (n + j)
unfolding positions
positions_add zero k n = ground arith
positions_add (suc j) k n =
    ap (λ m. positions m n) next
    ∙ ap (λ l. n ∷ l)
        (positions_add j k (n + 1) ∙ ap (λ m. positions j (n + 1) ++ positions k m) (omega arith))
  where
    next : suc j + k ≡ suc (j + k)
    next = omega arith

module _ (ipv4_cksum : Ipv4Hdr → ℕ) (udp_cksum : Ipv4Hdr → UdpHdr → Bytes → ℕ)
    (alloc : ℕ → Option Frame) where
  -- What a run over frames adds to the port.
  record Grown (s : Port) (indices : List ℕ) (t : Port) : Type 0 where
    freed : t.freed ≡ s.freed ++ indices
    sent : length t.sent ≡ length s.sent + length indices
    freed_sent : t.freed_sent ≡ s.freed_sent ++ positions (length indices) (length s.sent)

  answer_grows :
      (i : ℕ) (f : Frame) (s t : Port)
      → answer ipv4_cksum udp_cksum alloc i f s ≡ ok (some t)
      → Grown s (i ∷ []) t
  unfolding answer positions
  answer_grows i f s t h =
      let (tx_buf, _, h1) =
        >>=-eq-ok (send ipv4_cksum udp_cksum alloc (learn f) (length s.sent) f.payload _) _ h in
      elim (Option-cases tx_buf) [
        | inl e ↦ absurd (unanswered (rw e at h1))
        | inr (m, e) ↦ grown m (rw e at h1)
      ]
    where
      unanswered : ◌≡◌ {A = Outcome (Option Port)} (ok none) (ok (some t)) → ⊥
      unanswered e = cc

      grown :
          (m : Mbuf)
          → ◌≡◌ {A = Outcome (Option Port)}
              (ok (
                some (record {
                  addresses = learn f;
                  sent = s.sent ++ m ∷ [];
                  freed_sent = s.freed_sent ++ length s.sent ∷ [];
                  freed = s.freed ++ i ∷ [];
                })))
              (ok (some t))
          → Grown s (i ∷ []) t
      grown m e = record {
        freed = ground arith;
        sent = ground (arith, length-append s.sent (m ∷ []));
        freed_sent = ground arith;
      }

  Grown-trans : {s u t : Port} {xs ys : List ℕ} → Grown s xs u → Grown u ys t → Grown s (xs ++ ys) t
  Grown-trans {s} {u} {t} {xs} {ys} g h = record {
    freed = h.freed ∙ ap (λ l. l ++ ys) g.freed ∙ append_assoc s.freed xs ys;
    sent = omega (arith, g.sent, h.sent, length-append xs ys);
    freed_sent =
        h.freed_sent
        ∙ ap (λ l. l ++ positions (length ys) (length u.sent)) g.freed_sent
        ∙ append_assoc s.freed_sent (positions (length xs) (length s.sent)) _
        ∙ ap (λ l. s.freed_sent ++ l)
            (ap (λ n. positions (length xs) (length s.sent) ++ positions (length ys) n) g.sent
              ∙ sym (positions_add (length xs) (length ys) (length s.sent))
              ∙ ap (λ n. positions n (length s.sent)) (sym (length-append xs ys)));
  }

  round_grows :
      (i : ℕ) (f : Frame) (s t : Port)
      → round ipv4_cksum udp_cksum alloc i f s ≡ ok (some t)
      → Grown s (if is_udp f then i ∷ [] else []) t
  unfolding round positions
  round_grows i f s t h = elim (Bool-cases (is_udp f)) [
    | inl udp ↦ rw udp (answer_grows i f s t (rw udp at h))
    | inr other ↦ rw other (same (rw other at h))
  ]
    where
      same : ◌≡◌ {A = Outcome (Option Port)} (ok (some s)) (ok (some t)) → Grown s [] t
      same e = record {
        freed = ground (arith, append-nil s.freed);
        sent = ground arith;
        freed_sent = ground (arith, append-nil s.freed_sent);
      }

  rounds_grow :
      (fs : List Frame) (i : ℕ) (s t : Port)
      → rounds ipv4_cksum udp_cksum alloc i fs s ≡ ok (some t)
      → Grown s (udp_indices i fs) t
  unfolding rounds udp_indices positions
  rounds_grow [] i s t h = record {
    freed = ground (arith, append-nil s.freed);
    sent = ground arith;
    freed_sent = ground (arith, append-nil s.freed_sent);
  }
  rounds_grow (f ∷ fs) i s t h =
      let (after, e, h1) = >>=-eq-ok (round ipv4_cksum udp_cksum alloc i f s) _ h in
      elim (Option-cases after) [
        | inl exited ↦ absurd (never (rw exited at h1))
        | inr (u, going) ↦
            Grown-trans (round_grows i f s u (e ∙ ap ok going))
              (rounds_grow fs (i + 1) u t (rw going at h1))
      ]
    where
      never : ◌≡◌ {A = Outcome (Option Port)} (ok none) (ok (some t)) → ⊥
      never e = cc

  -- If a burst is handled to its end, it has at most 128 frames, the received mbufs freed are
  -- exactly those of the UDP frames among them, in order, one mbuf has been sent for each, and each
  -- that was sent has been freed once, in order; a frame of any other kind keeps its mbuf.
  pub burst_frees :
      (frames : List Frame) (s t : Port)
      → burst ipv4_cksum udp_cksum alloc frames s ≡ ok (some t)
      → (t.freed ≡ s.freed ++ udp_indices 0 frames)
        × (length t.sent ≡ length s.sent + length (udp_indices 0 frames))
        × (t.freed_sent ≡ s.freed_sent ++ positions (length (udp_indices 0 frames)) (length s.sent))
        × (length frames ≤ 128)
  unfolding burst
  burst_frees frames s t h = elim (Bool-cases (ltb 128 (length frames))) [
    | inl many ↦ absurd (never (rw many at h))
    | inr few ↦
        let g = rounds_grow frames 0 s t (rw few at h) in
        (g.freed, g.sent, g.freed_sent, ground (arith, few))
  ]
    where
      never : ◌≡◌ {A = Outcome (Option Port)} (ok none) (ok (some t)) → ⊥
      never e = cc
